-- ===== src/Selector.antt =====
-- Load balancing: internal/selector/selector.go, `Select`.
pub mod Least
mod Examples
use atomhub.Prelude.{
  ℕ, Bool, true, ◌&&◌, List, [], ◌∷◌, Option, none, some, ltb, ◌==◌, if◌then◌else◌,
}
use atomhub.Types.{Result, ok, err, no_healthy_keys}

pub record Candidate : Type 0 where
  pub key_id : ℕ
  pub cooling_down : Bool
  pub inflight : ℕ

-- the two tests by which a candidate replaces the best so far
unfoldable pub better : Candidate → Candidate → Bool
better c best =
    if ltb c.inflight best.inflight
    then true
    else (c.inflight == best.inflight) && ltb c.key_id best.key_id

-- One round of the loop; `best` is `none` until a candidate is found.
pub consider : Option Candidate → Candidate → Option Candidate
unfolding better
consider none c = if c.cooling_down then none else some c
consider (some best) c =
    if c.cooling_down then some best else if better c best then some c else some best

scan : Option Candidate → List Candidate → Option Candidate
scan best [] = best
scan best (c ∷ cs) = scan (consider best c) cs

found : Option Candidate → Result Candidate
found none = err no_healthy_keys
found (some best) = ok best

unfoldable pub select : List Candidate → Result Candidate
unfolding consider scan found
select candidates = found (scan none candidates)

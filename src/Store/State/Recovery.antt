-- ===== src/Store/State/Recovery.antt =====
-- When a key is offered again after a failure that internal/store/state.go recorded.
use atomhub.Prelude.{ℕ, ◌+◌, ◌≤◌, ◌≡◌, ◌∙◌, ap, Bool, arith, ltb}
use atomhub.Types.{KeyState, Error}
use atomhub.Server.{Server}
use atomhub.Server.Outcome.{Outcome, Outcome-mono, next_reading}
use atomhub.Store.State.{
  failure_cooldown, cooldown_base, cooldown_cap, is_cooling, failed, record_failure,
}
use atomhub.Store.State.Cooldown.{failure_cooldown_bounds}
use atomhub.Store.State.Failure.{state_of, Quiet, Failed, record_failure-Failed}
use atomhub.Store.State.Candidates.{as_candidate}

-- The key is cooling down at the times before an instant, 30 s to 10 min after the failure, and at no
-- other.
pub record Recovers (s : Server) (k : ℕ) (t : Server) : Type 0 where
  pub until : ℕ
  pub earliest : next_reading s + cooldown_base ≤ until
  pub latest : until ≤ next_reading s + cooldown_cap
  pub cooling : (time : ℕ) → (as_candidate time t k).cooling_down ≡ ltb time until

Failed-Recovers :
    (probe : Bool) (k : ℕ) (e : Error) (s t : Server) → Failed s probe k e t → Recovers s k t
unfolding failed is_cooling
Failed-Recovers probe k e s t (stamp, changed) =
    let (low, high) = failure_cooldown_bounds (state_of k s).consecutive_failures in
    record {
      until = next_reading s + failure_cooldown ((state_of k s).consecutive_failures + 1);
      earliest = omega (arith, low);
      latest = omega (arith, high);
      cooling = λ time.
          ap (λ (r : KeyState). is_cooling time r.cooldown_until) (changed.0 k) ∙ ground arith;
    }

-- After a failure that was recorded, of a call or of a probe, and however many there were before it,
-- the key is offered as cooling down at each time before an instant and as available from then on; the
-- instant is at least 30 s and at most 10 min after the failure. If a database call fails nothing reads
-- differently.
pub record_failure-Recovers :
    (probe : Bool) (k : ℕ) (e : Error) (s : Server)
    → Outcome (λ x t. Quiet s t) (λ u t. Recovers s k t) (record_failure probe k e) s
record_failure-Recovers probe k e s =
    Outcome-mono (record_failure-Failed probe k e s) (λ x t q. q)
      (λ u t c. Failed-Recovers probe k e s t c)

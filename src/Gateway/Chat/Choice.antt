-- ===== src/Gateway/Chat/Choice.antt =====
-- Which key `handleChatCompletions` sends a request to: `choose`, from the ids of the catalog to the
-- row of the key.
use mathlib.Core.List.{Memᴰ}
use mathlib.Core.Path.{subst}
use atomhub.Prelude.{
  ℕ, ◌≡◌, refl, ◌∙◌, ap, sym, true, false, All, List, Option, none, some, map, find?,
}
use atomhub.Prelude.Sort.{sort}
use atomhub.Types.{
  UpstreamKey, KeyCandidate, Error, database, no_healthy_keys, key_not_found, Result, ok, err,
}
use atomhub.Server.{Server, lift}
use atomhub.Server.Outcome.{
  Outcome, Outcome-bind, Outcome-seq, Outcome-pure, Outcome-fail, Outcome-query, Outcome-mono,
  Outcome-both, next_reading,
}
use atomhub.Selector.{Candidate, select}
use atomhub.Selector.Least.{IsLeast, select-IsLeast, select_fails_iff, select_error}
use atomhub.Store.Keys
use atomhub.Store.Keys.{has_id, or_key_not_found}
use atomhub.Store.State.{lower_id}
use atomhub.Store.State.Failure.{Quiet, Quiet-faults}
use atomhub.Store.State.Candidates.{as_candidate, candidates-eq, candidates-FailsByDatabase}
use atomhub.Gateway.Chat.{to_candidate, choose}

-- The candidates among the given ids, with the rows and counters of the state.
abbrev pub offered : List ℕ → Server → List Candidate
offered ids s = map to_candidate (sort lower_id (map (as_candidate (next_reading s) s) ids))

-- The key with the id is the row stored under it.
abbrev pub IsRow : ℕ → UpstreamKey → Server → Type 0
IsRow id key s = find? (has_id id) s.tables.upstream_keys ≡ some key

-- The id belongs to one of the candidates offered, which is not cooling down and precedes the others.
abbrev pub IsChoice : List ℕ → ℕ → Server → Type 0
IsChoice ids id s =
    (c : Candidate) × (c.key_id ≡ id)
    × Memᴰ c (offered ids s)
    × (c.cooling_down ≡ false)
    × IsLeast c (offered ids s)

-- Why no key is chosen: a call of the database failed, each of the candidates is cooling down, or the
-- one that precedes the others has no row.
pub data Refusal (ids : List ℕ) (s : Server) : Error → Type 0 where
  database_failed : Refusal ids s database
  all_cooling : All (λ c. c.cooling_down ≡ true) (offered ids s) → Refusal ids s no_healthy_keys
  row_missing :
      (id : ℕ)
      → IsChoice ids id s
      → find? (has_id id) s.tables.upstream_keys ≡ none
      → Refusal ids s key_not_found

module _ (ids : List ℕ) (s : Server) where
  abbrev pub Refused : Error → Server → Type 0
  Refused e t = Quiet s t × Refusal ids s e

  found-IsRow :
      {t : Server} (id : ℕ) (o : Option UpstreamKey)
      → IsChoice ids id s
      → find? (has_id id) s.tables.upstream_keys ≡ o
      → Quiet s t
      → Outcome Refused (λ key t. IsRow id key s × Quiet s t) (or_key_not_found o) t
  unfolding or_key_not_found
  found-IsRow id none c e q = Outcome-fail (q, row_missing id c e)
  found-IsRow id (some key) c e q = Outcome-pure (e, q)

  get-IsRow :
      {t : Server} (id : ℕ)
      → IsChoice ids id s
      → Quiet s t
      → Outcome Refused (λ key t. IsRow id key s × Quiet s t) (Keys.get id) t
  unfolding Keys.get
  get-IsRow {t} id c q = Outcome-bind (
      Outcome-query _ (λ fs. (Quiet-faults q fs, database_failed))
        (λ fs.
          found-IsRow id _ c
            (ap (λ (r : Server). find? (has_id id) r.tables.upstream_keys) (sym q.rest))
            (Quiet-faults q fs)))

  selected-Outcome :
      {t : Server} (r : Result Candidate)
      → select (offered ids s) ≡ r
      → Quiet s t
      → Outcome Refused (λ c t. (select (offered ids s) ≡ ok c) × Quiet s t) (lift r) t
  unfolding lift
  selected-Outcome (ok c) e q = record { holds = (e, q) }
  selected-Outcome (err x) e q =
      let it = select_error (offered ids s) x e in
      record {
        holds = (
          q,
          subst (Refusal ids s) (sym it) (
              all_cooling
                ((select_fails_iff (offered ids s)).0 (e ∙ ap (λ (y : Error). err y) it))),
        );
      }

  -- The key that a request is sent to belongs to one of the ids that the catalog gave, is not cooling
  -- down at the time of the choice, has the fewest calls in flight of those that are not, the lowest
  -- id of those with as few, and is read from its row. There is no such key only where a call of the
  -- database fails, each of the candidates is cooling down, or the one that precedes the others has no
  -- row. The choice, whether it succeeds or fails, changes nothing but that a key without a row in
  -- `key_state` may get the row it reads as.
  pub choose-IsChoice :
      Outcome Refused (λ v t. IsChoice ids v.0 s × IsRow v.0 v.1 s × Quiet s t) (choose ids) s
  unfolding choose
  choose-IsChoice =
      Outcome-seq
        (Outcome-mono (Outcome-both (candidates-eq ids s) (candidates-FailsByDatabase ids s))
          (λ e t (h : Quiet s t × (e ≡ database)).
            (h.0, subst (Refusal ids s) (sym h.1) database_failed))
          (λ cs t h. h.0))
        λ cs t h.
          Outcome-seq
            (selected-Outcome (select (map to_candidate cs))
              (ap (λ (l : List KeyCandidate). select (map to_candidate l)) (sym h.0)) h.1)
            λ c t' g.
              let least = select-IsLeast (offered ids s) c g.0 in
              let choice : IsChoice ids c.key_id s = (c, refl, least.0, least.1, least.2) in
              Outcome-seq (get-IsRow c.key_id choice g.1)
                (λ key t'' k. Outcome-pure (choice, k.0, k.1))

-- ===== src/Store/State/Candidates.antt =====
-- `Candidates` of internal/store/state.go: one candidate for each id asked for, as the key's row and
-- its counter say at the time of the call, in the order of the ids.
use mathlib.Core.Path.{fun_ext}
use atomhub.Prelude.{
  ℕ, ◌≡◌, refl, ◌∙◌, ap, ap₂, true, List, [], ◌∷◌, map, Option, none, some, arith, if◌then◌else◌,
  find?, filter, elem, All, All-map, Bool-cases, inl, inr, ==_iff,
}
use atomhub.Prelude.Sort.{sort}
use atomhub.Types.{KeyState, KeyCandidate, cooling_down}
use atomhub.Server.{Server}
use atomhub.Server.Outcome.{
  Outcome, Outcome-bind, Outcome-seq, Outcome-pure, Outcome-query, Outcome-now, Outcome-mono,
  Outcome-exec, FailsByDatabase, next_reading,
}
use atomhub.Store.State.{
  of_key, ensure, count, inflight_of, is_cooling, candidate, state_or_new, scan_key_state, lower_id,
  ensure_all, load_candidates, candidates,
}
use atomhub.Store.State.View.{read_row, row_or_new}
use atomhub.Store.State.Failure.{
  state_of, Quiet, Quiet-refl, SameClock, Quiet-ensure, Quiet-faults, after_clock, same_reading,
}

-- A key as a candidate at a time.
abbrev pub as_candidate : ℕ → Server → ℕ → KeyCandidate
as_candidate time s key_id =
    let cooling = is_cooling time (state_of key_id s).cooldown_until in
    record {
      key_id = key_id;
      status = if cooling then cooling_down else (state_of key_id s).status;
      cooling_down = cooling;
      cooldown_until = (state_of key_id s).cooldown_until;
      inflight = inflight_of key_id s;
    }

Quiet-ensure_all :
    {s : Server} (s₀ : Server) (ks : List ℕ)
    → Quiet s₀ s
    → Outcome (λ e t. Quiet s₀ t) (λ u t. Quiet s₀ t × SameClock s t) (ensure_all ks) s
unfolding ensure_all
Quiet-ensure_all s₀ [] q = Outcome-pure (q, record { clock = refl; readings = refl })
Quiet-ensure_all s₀ (k ∷ ks) q = Outcome-seq (Quiet-ensure s₀ k q) λ u t h.
    Outcome-mono (Quiet-ensure_all s₀ ks h.0) (λ e t' x. x)
      (λ v t' g.
        (g.0, record { clock = g.1.clock ∙ h.2.clock; readings = g.1.readings ∙ h.2.readings }))

find-filter :
    (k : ℕ) (ids : List ℕ) (rows : List KeyState)
    → elem k ids ≡ true
    → find? (of_key k) (filter (λ row. elem row.key_id ids) rows) ≡ find? (of_key k) rows
find-filter k ids [] h = refl
find-filter k ids (r ∷ rows) h = elim (Bool-cases (of_key k r)) [
  | inl e ↦ let i : elem r.key_id ids ≡ true = rw ((==_iff r.key_id k).0 e) h in rw (i, e)
  | inr e ↦ elim (Bool-cases (elem r.key_id ids)) [
    | inl i ↦ rw (i, e) (find-filter k ids rows h)
    | inr o ↦ rw (o, e) (find-filter k ids rows h)
  ]
]

candidate-eq :
    (time k : ℕ) (ids : List ℕ) (s : Server)
    → elem k ids ≡ true
    → candidate time s.inflight (filter (λ row. elem row.key_id ids) s.tables.key_state) k
      ≡ as_candidate time s k
unfolding candidate read_row scan_key_state
candidate-eq time k ids s h =
    rw (find-filter k ids s.tables.key_state h) (read (find? (of_key k) s.tables.key_state))
  where
    read :
        (o : Option KeyState)
        → ◌≡◌ {A = KeyCandidate}
            (let state = state_or_new k o in
              let cooling = is_cooling time state.cooldown_until in
              record {
                key_id = k;
                status = if cooling then cooling_down else state.status;
                cooling_down = cooling;
                cooldown_until = state.cooldown_until;
                inflight = count s.inflight k;
              })
            (let state = row_or_new k o in
              let cooling = is_cooling time state.cooldown_until in
              record {
                key_id = k;
                status = if cooling then cooling_down else state.status;
                cooling_down = cooling;
                cooldown_until = state.cooldown_until;
                inflight = count s.inflight k;
              })
    read none = refl
    read (some row) = refl

map-candidate :
    (time : ℕ) (s : Server) (ids ks : List ℕ)
    → All (λ k. elem k ids ≡ true) ks
    → map (candidate time s.inflight (filter (λ row. elem row.key_id ids) s.tables.key_state)) ks
      ≡ map (as_candidate time s) ks
map-candidate time s ids [] h = refl
map-candidate time s ids (k ∷ ks) h =
    ap₂ ◌∷◌ (candidate-eq time k ids s h.0) (map-candidate time s ids ks h.1)

All-elem : (ids : List ℕ) → All (λ k. elem k ids ≡ true) ids
All-elem [] = tt
All-elem (k ∷ ks) = (ground arith, All-map ks (λ j h. ground arith) (All-elem ks))

candidate_from : ℕ → ℕ → KeyState → ℕ → KeyCandidate
candidate_from time k state inflight =
    let cooling = is_cooling time state.cooldown_until in
    record {
      key_id = k;
      status = if cooling then cooling_down else state.status;
      cooling_down = cooling;
      cooldown_until = state.cooldown_until;
      inflight = inflight;
    }

-- States that read alike give the same candidates.
pub as_candidate-Quiet :
    (time : ℕ) {s t : Server} → Quiet s t → as_candidate time t ≡ as_candidate time s
unfolding candidate_from
as_candidate-Quiet time {s} {t} q =
    fun_ext
      λ k. ap₂ (candidate_from time k) (q.states k) (ap (λ (r : Server). count r.inflight k) q.rest)

load_candidates-eq :
    (ids : List ℕ) (s : Server)
    → Outcome
        (λ e t. Quiet s t)
        (λ cs t. (cs ≡ sort lower_id (map (as_candidate (next_reading s) s) ids)) × Quiet s t)
        (load_candidates ids)
        s
unfolding load_candidates
load_candidates-eq ids s = Outcome-seq (Quiet-ensure_all s ids (Quiet-refl s)) λ u t h.
    Outcome-bind (
      Outcome-query _ (λ fs. Quiet-faults h.0 fs)
        (λ fs. Outcome-bind (
          Outcome-now λ rs. record {
            holds = (
              ap (sort lower_id) (
                  map-candidate (next_reading t) t ids ids (All-elem ids)
                  ∙ ap (λ (f : ℕ → KeyCandidate). map f ids)
                      (as_candidate-Quiet (next_reading t) h.0)
                  ∙ ap (λ (n : ℕ). map (as_candidate n s) ids) (same_reading h.1)),
              after_clock (next_reading t) rs (Quiet-faults h.0 fs),
            );
          })))

-- The candidates are those of the ids asked for, with the counters and the rows of the moment and
-- the clock's next reading for the cooldowns, sorted by id; the call changes nothing that is read
-- later. If a database call fails it changes nothing either.
pub candidates-eq :
    (ids : List ℕ) (s : Server)
    → Outcome
        (λ e t. Quiet s t)
        (λ cs t. (cs ≡ sort lower_id (map (as_candidate (next_reading s) s) ids)) × Quiet s t)
        (candidates ids)
        s
unfolding candidates sort
candidates-eq [] s = Outcome-pure (refl, Quiet-refl s)
candidates-eq (k ∷ ks) s = load_candidates-eq (k ∷ ks) s

ensure_all-FailsByDatabase : (ks : List ℕ) (s : Server) → FailsByDatabase (ensure_all ks) s
unfolding ensure_all ensure
ensure_all-FailsByDatabase [] s = Outcome-pure tt
ensure_all-FailsByDatabase (k ∷ ks) s =
    Outcome-bind (Outcome-exec _ tt _ refl (λ fs. refl) (λ fs. ensure_all-FailsByDatabase ks _))

load_candidates-FailsByDatabase :
    (ids : List ℕ) (s : Server) → FailsByDatabase (load_candidates ids) s
unfolding load_candidates
load_candidates-FailsByDatabase ids s = Outcome-seq (ensure_all-FailsByDatabase ids s) (λ u t h.
    Outcome-bind (
      Outcome-query {s = t} _ (λ fs. refl)
        (λ fs. Outcome-bind (Outcome-now (λ rs. record { holds = tt })))))

pub candidates-FailsByDatabase : (ids : List ℕ) (s : Server) → FailsByDatabase (candidates ids) s
unfolding candidates
candidates-FailsByDatabase [] s = Outcome-pure tt
candidates-FailsByDatabase (k ∷ ks) s = load_candidates-FailsByDatabase (k ∷ ks) s

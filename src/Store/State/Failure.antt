-- ===== src/Store/State/Failure.antt =====
-- What `Ensure`, `Get`, `markFailure` and the other writers of internal/store/state.go do to the
-- health of the keys, whichever of their database calls fail.
use atomhub.Text.{Text}
use atomhub.Prelude.{
  ℕ, ◌+◌, ◌≡◌, refl, ◌∙◌, ap, Bool, true, List, [], Option, none, some, ◌==◌, if◌then◌else◌, ap₂,
}
use atomhub.Types.{KeyState, Error, error_text}
use atomhub.Server.{Server}
use atomhub.Server.Outcome.{
  Outcome, Outcome-bind, Outcome-pure, Outcome-query, Outcome-exec, Outcome-now, Outcome-mono,
  with_faults, next_reading, with_clock, Outcome-seq,
}
use atomhub.Store.Rows.{exists_where}
use atomhub.Store.State.{
  of_key, ensure, get, or_not_found, scan_key_state, record_failure, failed, recovered, update_key,
  mark_success, mark_probe_success,
}
use atomhub.Store.State.View.{
  read_row, read_row-ensure_row, exists_where-ensure_row, read_row-update_where, KeepsKey,
  row_found,
}

-- The row of a key, as the program reads it.
abbrev pub state_of : ℕ → Server → KeyState
state_of key_id s = read_row key_id s.tables.key_state

abbrev pub without_states : Server → Server
without_states s = record s {
  tables = record s.tables { key_state = [] };
  faults = [];
  clock = 0;
  readings = [];
}

-- The two states differ at most in faults, clock and rows of `key_state` that read alike.
pub record Quiet (s t : Server) : Type 0 where
  pub states : (j : ℕ) → state_of j t ≡ state_of j s
  pub rest : without_states t ≡ without_states s

pub record SameClock (s t : Server) : Type 0 where
  pub clock : t.clock ≡ s.clock
  pub readings : t.readings ≡ s.readings

abbrev pub HasRow : ℕ → Server → Type 0
HasRow k s = exists_where (of_key k) s.tables.key_state ≡ true

pub Quiet-refl : (s : Server) → Quiet s s
Quiet-refl s = record { states = λ j. refl; rest = refl }

pub Quiet-faults : {s₀ s : Server} → Quiet s₀ s → (fs : List Bool) → Quiet s₀ (with_faults fs s)
Quiet-faults q fs = record { states = q.states; rest = q.rest }

pub Quiet-ensure :
    {s : Server} (s₀ : Server) (k : ℕ)
    → Quiet s₀ s
    → Outcome (λ e t. Quiet s₀ t) (λ u t. Quiet s₀ t × HasRow k t × SameClock s t) (ensure k) s
unfolding ensure
Quiet-ensure {s = s} s₀ k q =
    Outcome-exec _ tt _ refl (λ fs. record { states = q.states; rest = q.rest })
      (λ fs. (
        record {
          states = λ j. read_row-ensure_row k j s.tables.key_state ∙ q.states j;
          rest = q.rest;
        },
        exists_where-ensure_row k s.tables.key_state,
        record { clock = refl; readings = refl },
      ))

pub Quiet-get :
    {s : Server} (s₀ : Server) (k : ℕ)
    → Quiet s₀ s
    → Outcome
        (λ e t. Quiet s₀ t)
        (λ row t. (row ≡ scan_key_state (state_of k s₀)) × Quiet s₀ t × HasRow k t × SameClock s t)
        (get k)
        s
unfolding get or_not_found
Quiet-get {s = s} s₀ k q = Outcome-seq (Quiet-ensure s₀ k q) λ u t h. Outcome-bind (
    Outcome-query _ (λ fs. Quiet-faults h.0 fs)
      (λ fs. rw (row_found k t.tables.key_state h.1) (
        Outcome-pure (
          ap scan_key_state (h.0.states k),
          Quiet-faults h.0 fs,
          h.1,
          record { clock = h.2.clock; readings = h.2.readings },
        ))))

-- The rows after an update of one key.
abbrev pub Changed : Server → ℕ → (KeyState → KeyState) → Server → Type 0
Changed s₀ k change t =
    ((j : ℕ) → state_of j t ≡ (if k == j then change (state_of k s₀) else state_of j s₀))
    × (without_states t ≡ without_states s₀)

Changed-update_key :
    {s : Server} (s₀ : Server) (k : ℕ) (change : KeyState → KeyState)
    → KeepsKey change
    → Quiet s₀ s
    → HasRow k s
    → Outcome (λ e t. Quiet s₀ t) (λ u t. Changed s₀ k change t) (update_key k change) s
unfolding update_key
Changed-update_key {s = s} s₀ k change same q row =
    Outcome-exec _ tt _ refl (λ fs. Quiet-faults q fs)
      (λ fs. (
        λ j.
            read_row-update_where k j change s.tables.key_state same row
            ∙ ap₂ (λ (a b : KeyState). if k == j then change a else b) (q.states k) (q.states j),
        q.rest,
      ))

pub after_clock : {s₀ s : Server} (c : ℕ) (rs : List ℕ) → Quiet s₀ s → Quiet s₀ (with_clock c rs s)
after_clock c rs q = record { states = q.states; rest = q.rest }

pub same_reading : {s t : Server} → SameClock s t → next_reading t ≡ next_reading s
same_reading c = rw (c.clock, c.readings)

failed-KeepsKey :
    (time n : ℕ) (message : Text) (probed : Option ℕ) → KeepsKey (failed time n message probed)
unfolding failed
failed-KeepsKey time n message probed r = refl

abbrev pub Failed : Server → Bool → ℕ → Error → Server → Type 0
Failed s probe k e t =
    (stamp : ℕ) × Changed s k
      (failed (next_reading s) ((state_of k s).consecutive_failures + 1) (error_text e)
        (if probe then some stamp else none))
      t

write_failure :
    {t : Server} (s : Server) (probe : Bool) (k : ℕ) (e : Error) (time stamp : ℕ) (row : KeyState)
    → time ≡ next_reading s
    → row ≡ scan_key_state (state_of k s)
    → Quiet s t
    → HasRow k t
    → Outcome
        (λ x t. Quiet s t)
        (λ u t. Failed s probe k e t)
        (update_key k (
          failed time
            (row.consecutive_failures + 1)
            (error_text e)
            (if probe then some stamp else none)))
        t
unfolding scan_key_state
write_failure s probe k e time stamp row is_time is_row q h =
    rw (is_time, is_row)
      (Outcome-mono
        (Changed-update_key s k _
          (failed-KeepsKey (next_reading s) ((state_of k s).consecutive_failures + 1) (error_text e)
            (if probe then some stamp else none))
          q h)
        (λ x t''. λ q. q) (λ v t'' c. (stamp, c)))

-- A failure, of a call or of a probe: it counts one more failure in the key's row, puts the key into
-- its cooldown from the time of the failure on, and keeps the message. No other row reads
-- differently and nothing else is changed. If a database call fails, nothing reads differently.
pub record_failure-Failed :
    (probe : Bool) (k : ℕ) (e : Error) (s : Server)
    → Outcome (λ x t. Quiet s t) (λ u t. Failed s probe k e t) (record_failure probe k e) s
unfolding record_failure
record_failure-Failed probe k e s = Outcome-seq (Quiet-ensure s k (Quiet-refl s)) λ u t h.
    Outcome-seq (Quiet-get s k h.0) λ row t' g. Outcome-bind (
      Outcome-now λ rs. Outcome-bind (
        Outcome-now λ rs'.
          write_failure s probe k e _ _ row (same_reading g.3 ∙ same_reading h.2) g.0
            (after_clock (next_reading (with_clock (next_reading t') rs t')) rs'
              (after_clock (next_reading t') rs g.1))
            g.2))

recovered-KeepsKey : (time : ℕ) → KeepsKey (recovered time)
recovered-KeepsKey time r = refl

-- A successful call: the key is healthy again, its count of failures, its message and its cooldown
-- are gone. No other row reads differently and nothing else is changed. If a database call fails,
-- nothing reads differently.
pub mark_success-Changed :
    (k : ℕ) (s : Server)
    → Outcome
        (λ x t. Quiet s t)
        (λ u t. Changed s k (recovered (next_reading s)) t)
        (mark_success k)
        s
unfolding mark_success
mark_success-Changed k s = Outcome-seq (Quiet-ensure s k (Quiet-refl s)) λ u t h. Outcome-bind (
    Outcome-now λ rs. rw (same_reading h.2) (
      Changed-update_key s k (recovered (next_reading s)) (recovered-KeepsKey (next_reading s))
        (after_clock (next_reading s) rs h.0) h.1))

abbrev pub probed : ℕ → KeyState → KeyState
probed time row = record (recovered time row) { last_probe_at = some time }

probed-KeepsKey : (time : ℕ) → KeepsKey (probed time)
probed-KeepsKey time r = refl

-- The same for a successful probe, which also keeps its own time.
pub mark_probe_success-Changed :
    (k : ℕ) (s : Server)
    → Outcome
        (λ x t. Quiet s t)
        (λ u t. Changed s k (probed (next_reading s)) t)
        (mark_probe_success k)
        s
unfolding mark_probe_success
mark_probe_success-Changed k s = Outcome-seq (Quiet-ensure s k (Quiet-refl s)) λ u t h.
    Outcome-bind (
      Outcome-now λ rs. rw (same_reading h.2) (
        Changed-update_key s k (probed (next_reading s)) (probed-KeepsKey (next_reading s))
          (after_clock (next_reading s) rs h.0) h.1))

-- ===== src/Store/State.antt =====
-- Health of the upstream keys: internal/store/state.go.
-- `key_state` has at most one row for a key. The float arithmetic of `failureCooldown` is exact: its
-- values are integers below 2^53.
mod Examples
pub mod Overview
pub mod Cooldown
pub mod Recovery
pub mod Marks
pub mod Inflight
pub mod View
pub mod Failure
pub mod Candidates
pub mod Sound
use Prim.Native.Nat.{min}
use atomhub.Prelude.{
  ℕ, zero, suc, ◌+◌, ◌-◌, ◌*◌, ◌^◌, Bool, true, false, not, ◌&&◌, List, [], ◌∷◌, ◌++◌, map, filter,
  Option, none, some, ltb, leb, ◌==◌, if◌then◌else◌, elem, any, find?,
}
use atomhub.Prelude.Sort.{sort}
use atomhub.Text.{Text, trim_space}
use atomhub.Types.{
  KeyState, KeyStatus, healthy, degraded, cooling_down, disabled, KeyCandidate, HealthOverview,
  Error, state_not_found, error_text, Result, ok, err,
}
use atomhub.Server.{Server, Tables, M, ◌>>=◌, ◌>>◌, pure, fail, query, exec, now}
use atomhub.Store.Rows.{update_where, exists_where}

-- 30 seconds and 10 minutes, in nanoseconds: NewStateStore
abbrev pub cooldown_base : ℕ
cooldown_base = 30000000000

abbrev pub cooldown_cap : ℕ
cooldown_cap = 600000000000

unfoldable pub failure_cooldown : ℕ → ℕ
failure_cooldown zero = 0
failure_cooldown (suc n) =
    let cooldown = cooldown_base * 2 ^ min n 10 in
    if ltb cooldown_cap cooldown then cooldown_cap else cooldown

abbrev pub of_key : ℕ → KeyState → Bool
of_key key_id row = row.key_id == key_id

abbrev pub new_state : ℕ → KeyState
new_state key_id = record {
  key_id = key_id;
  status = healthy;
  cooldown_until = none;
  consecutive_failures = 0;
  last_error = [];
  last_success_at = none;
  last_probe_at = none;
}

-- insert … on conflict(key_id) do nothing
unfoldable pub ensure_row : ℕ → List KeyState → List KeyState
ensure_row key_id rows =
    if exists_where (of_key key_id) rows then rows else rows ++ new_state key_id ∷ []

pub ensure : ℕ → M (Unit {0})
ensure key_id = exec λ t. some (tt, record t { key_state = ensure_row key_id t.key_state })

-- scanKeyState
unfoldable pub scan_key_state : KeyState → KeyState
scan_key_state row = record row { last_error = trim_space row.last_error }

or_not_found : Option KeyState → M KeyState
or_not_found none = fail state_not_found
or_not_found (some row) = pure (scan_key_state row)

pub get : ℕ → M KeyState
get key_id = do
  ensure key_id
  row ← query (λ t. find? (of_key key_id) t.key_state)
  or_not_found row

-- Ensure for each id of the request.
ensure_all : List ℕ → M (Unit {0})
ensure_all [] = pure tt
ensure_all (k ∷ ks) = do ensure k; ensure_all ks

abbrev pub count : List (ℕ × ℕ) → ℕ → ℕ
count [] k = 0
count ((j, n) ∷ rest) k = if j == k then n else count rest k

-- `now.Before(*state.CooldownUntil)`, if there is one
unfoldable pub is_cooling : ℕ → Option ℕ → Bool
is_cooling time none = false
is_cooling time (some until) = ltb time until

state_or_new : ℕ → Option KeyState → KeyState
state_or_new key_id none = new_state key_id
state_or_new key_id (some row) = scan_key_state row

-- one round of the loop that builds the candidates
candidate : ℕ → List (ℕ × ℕ) → List KeyState → ℕ → KeyCandidate
unfolding state_or_new
candidate time inflight states key_id =
    let state = state_or_new key_id (find? (of_key key_id) states) in
    let cooling = is_cooling time state.cooldown_until in
    record {
      key_id = key_id;
      status = if cooling then cooling_down else state.status;
      cooling_down = cooling;
      cooldown_until = state.cooldown_until;
      inflight = count inflight key_id;
    }

abbrev pub lower_id : KeyCandidate → KeyCandidate → Bool
lower_id c d = ltb c.key_id d.key_id

load_candidates : List ℕ → M (List KeyCandidate)
load_candidates key_ids = do
  ensure_all key_ids
  states ← query (λ t. filter (λ row. elem row.key_id key_ids) t.key_state)
  time ← now
  λ s. (ok (sort lower_id (map (candidate time s.inflight states) key_ids)), s)

pub candidates : List ℕ → M (List KeyCandidate)
candidates [] = pure []
candidates (k ∷ ks) = load_candidates (k ∷ ks)

abbrev pub recovered : ℕ → KeyState → KeyState
recovered time row = record row {
  status = healthy;
  cooldown_until = none;
  consecutive_failures = 0;
  last_error = [];
  last_success_at = some time;
}

pub update_key : ℕ → (KeyState → KeyState) → M (Unit {0})
update_key key_id change =
    exec λ t. some (tt, record t { key_state = update_where (of_key key_id) change t.key_state })

pub mark_probe_success : ℕ → M (Unit {0})
mark_probe_success key_id = do
  ensure key_id
  time ← now
  update_key key_id (λ row. record (recovered time row) { last_probe_at = some time })

pub mark_success : ℕ → M (Unit {0})
mark_success key_id = do ensure key_id; time ← now; update_key key_id (recovered time)

-- what `markFailure` writes: the time of the failure, the cooldown's length, the count of failures,
-- the message and, for a probe, its time
unfoldable pub failed : ℕ → ℕ → Text → Option ℕ → KeyState → KeyState
failed time failures message probed row = record row {
  status = if ltb 0 (failure_cooldown failures) then cooling_down else degraded;
  cooldown_until = some (time + failure_cooldown failures);
  consecutive_failures = failures;
  last_error = message;
  last_probe_at = elim probed [ none ↦ row.last_probe_at | some p ↦ some p ];
}

pub record_failure : Bool → ℕ → Error → M (Unit {0})
record_failure is_probe key_id e = do
  ensure key_id
  state ← get key_id
  time ← now
  stamp ← now
  update_key key_id (
      failed time (state.consecutive_failures + 1) (error_text e)
        (if is_probe then some stamp else none))

unfoldable pub mark_failure : ℕ → Error → M (Unit {0})
mark_failure = record_failure false

unfoldable pub mark_probe_failure : ℕ → Error → M (Unit {0})
mark_probe_failure = record_failure true

-- The map of calls in flight: a key that is not there has 0.
unfoldable pub set_count : ℕ → ℕ → List (ℕ × ℕ) → List (ℕ × ℕ)
set_count k n [] = (k, n) ∷ []
set_count k n ((j, m) ∷ rest) = if j == k then (k, n) ∷ rest else (j, m) ∷ set_count k n rest

unfoldable pub delete_count : ℕ → List (ℕ × ℕ) → List (ℕ × ℕ)
delete_count k [] = []
delete_count k ((j, m) ∷ rest) =
    if j == k then delete_count k rest else (j, m) ∷ delete_count k rest

abbrev pub inflight_of : ℕ → Server → ℕ
inflight_of key_id s = count s.inflight key_id

unfoldable pub increment_inflight : ℕ → Server → ℕ × Server
unfolding set_count
increment_inflight key_id s =
    let n = inflight_of key_id s + 1 in (n, record s { inflight = set_count key_id n s.inflight })

unfoldable pub decrement_inflight : ℕ → Server → ℕ × Server
unfolding set_count delete_count
decrement_inflight key_id s =
    let current = inflight_of key_id s in
    if leb current 1
    then (0, record s { inflight = delete_count key_id s.inflight })
    else (current - 1, record s { inflight = set_count key_id (current - 1) s.inflight })

-- one round of the loop of `Overview`
count_status : ℕ → HealthOverview → KeyState → HealthOverview
count_status time o row =
    let t = record o { total = o.total + 1 } in
    if is_cooling time row.cooldown_until
    then record t { cooling_down = o.cooling_down + 1 }
    else elim row.status [
      | healthy ↦ record t { healthy = o.healthy + 1 }
      | disabled ↦ record t { disabled = o.disabled + 1 }
      | cooling_down ↦ record t { cooling_down = o.cooling_down + 1 }
      | _ ↦ record t { degraded = o.degraded + 1 }
    ]

abbrev pub no_keys : HealthOverview
no_keys = record { total = 0; healthy = 0; degraded = 0; cooling_down = 0; disabled = 0 }

pub count_all : ℕ → HealthOverview → List KeyState → HealthOverview
unfolding count_status
count_all time o [] = o
count_all time o (row ∷ rows) = count_all time (count_status time o row) rows

pub overview : M HealthOverview
overview = do rows ← query (λ t. t.key_state); time ← now; pure (count_all time no_keys rows)

-- ===== src/Store/State/Marks.antt =====
-- What `MarkSuccess`, `MarkFailure` and `MarkProbeFailure` of internal/store/state.go write, column by
-- column.
use atomhub.Prelude.{
  ℕ, ◌+◌, ◌-◌, ◌*◌, ◌^◌, ◌≡◌, ◌∙◌, ap, Bool, [], none, some, arith, if◌then◌else◌, ltb, ◌==◌,
}
use atomhub.Types.{KeyState, healthy, cooling_down, Error, error_text}
use atomhub.Server.{Server}
use atomhub.Server.Outcome.{Outcome, Outcome-mono, next_reading}
use atomhub.Store.State.{recovered, mark_success}
use atomhub.Store.State.Failure.{state_of, without_states, Quiet, Changed, mark_success-Changed}

-- No row but the key's reads differently, and nothing else is changed but the clock and the faults.
pub record OnlyKey (k : ℕ) (s t : Server) : Type 0 where
  pub others : (j : ℕ) → state_of j t ≡ (if k == j then state_of k t else state_of j s)
  pub rest : without_states t ≡ without_states s

Changed-OnlyKey :
    (k : ℕ) (change : KeyState → KeyState) (s t : Server) → Changed s k change t → OnlyKey k s t
Changed-OnlyKey k change s t (states, rest) = record {
  others = λ j. let here = states k in states j ∙ ground arith;
  rest = rest;
}

-- 30 s, doubled with each further failure, and 10 min from the sixth on
abbrev pub cooldown_after : ℕ → ℕ
cooldown_after n = if ltb n 6 then 30000000000 * 2 ^ (n - 1) else 600000000000

pub record MarkedFailed (probe : Bool) (k : ℕ) (e : Error) (s t : Server) : Type 0 where
  pub key : (state_of k t).key_id ≡ (state_of k s).key_id
  pub status : (state_of k t).status ≡ cooling_down
  pub cooldown :
      (state_of k t).cooldown_until
      ≡ some (next_reading s + cooldown_after ((state_of k s).consecutive_failures + 1))
  pub failures : (state_of k t).consecutive_failures ≡ (state_of k s).consecutive_failures + 1
  pub message : (state_of k t).last_error ≡ error_text e
  pub success : (state_of k t).last_success_at ≡ (state_of k s).last_success_at
  pub stamp : ℕ
  pub probed :
      (state_of k t).last_probe_at ≡ (if probe then some stamp else (state_of k s).last_probe_at)
  pub only : OnlyKey k s t

pub record MarkedHealthy (k : ℕ) (s t : Server) : Type 0 where
  pub key : (state_of k t).key_id ≡ (state_of k s).key_id
  pub status : (state_of k t).status ≡ healthy
  pub cooldown : (state_of k t).cooldown_until ≡ none
  pub failures : (state_of k t).consecutive_failures ≡ 0
  pub message : (state_of k t).last_error ≡ []
  pub success : (state_of k t).last_success_at ≡ some (next_reading s)
  pub probed : (state_of k t).last_probe_at ≡ (state_of k s).last_probe_at
  pub only : OnlyKey k s t

-- the row of the key after a change
own_row :
    (k : ℕ) (change : KeyState → KeyState) (s t : Server)
    → Changed s k change t
    → state_of k t ≡ change (state_of k s)
own_row k change s t (states, rest) = states k ∙ ground arith

-- A successful call: the key is healthy again, its count of failures, its message and its cooldown
-- are gone, and the time of the success is kept. No other row reads differently and nothing else is
-- changed. If a database call fails, nothing reads differently.
pub mark_success-MarkedHealthy :
    (k : ℕ) (s : Server)
    → Outcome (λ x t. Quiet s t) (λ u t. MarkedHealthy k s t) (mark_success k) s
mark_success-MarkedHealthy k s =
    Outcome-mono (mark_success-Changed k s) (λ x t q. q)
      (λ u t changed.
        let row = own_row k (recovered (next_reading s)) s t changed in
        record {
          key = ap (λ (r : KeyState). r.key_id) row;
          status = ap (λ (r : KeyState). r.status) row;
          cooldown = ap (λ (r : KeyState). r.cooldown_until) row;
          failures = ap (λ (r : KeyState). r.consecutive_failures) row;
          message = ap (λ (r : KeyState). r.last_error) row;
          success = ap (λ (r : KeyState). r.last_success_at) row;
          probed = ap (λ (r : KeyState). r.last_probe_at) row;
          only = Changed-OnlyKey k (recovered (next_reading s)) s t changed;
        })

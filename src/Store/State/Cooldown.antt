-- ===== src/Store/State/Cooldown.antt =====
-- The cooldown of internal/store/state.go: `failureCooldown`, `markFailure`, `Candidates`.
use Prim.Native.Nat.{min}
use atomhub.Prelude.{
  ◌+◌, ◌≤◌, ◌∙◌, ℕ, zero, suc, ◌-◌, ◌*◌, ◌^◌, ◌≡◌, refl, arith, ◌==◌, if◌then◌else◌, ltb,
}
use atomhub.Store.State.{failure_cooldown, cooldown_base, cooldown_cap}

long_failure : (n : ℕ) → min (suc (suc (suc (suc (suc (suc (suc (suc (suc (suc n)))))))))) 10 ≡ 10
long_failure n = omega arith

-- The table of the cooldowns: 30 s, doubled with each further failure, and 10 min from the sixth on.
pub failure_cooldown_table :
    (n : ℕ)
    → failure_cooldown n
      ≡ (if ltb n 6 then (if n == 0 then 0 else cooldown_base * 2 ^ (n - 1)) else cooldown_cap)
unfolding failure_cooldown
failure_cooldown_table zero = refl
failure_cooldown_table (suc zero) = refl
failure_cooldown_table (suc (suc zero)) = refl
failure_cooldown_table (suc (suc (suc zero))) = refl
failure_cooldown_table (suc (suc (suc (suc zero)))) = refl
failure_cooldown_table (suc (suc (suc (suc (suc zero))))) = refl
failure_cooldown_table (suc (suc (suc (suc (suc (suc zero)))))) = refl
failure_cooldown_table (suc (suc (suc (suc (suc (suc (suc zero))))))) = refl
failure_cooldown_table (suc (suc (suc (suc (suc (suc (suc (suc zero)))))))) = refl
failure_cooldown_table (suc (suc (suc (suc (suc (suc (suc (suc (suc zero))))))))) = refl
failure_cooldown_table (suc (suc (suc (suc (suc (suc (suc (suc (suc (suc zero)))))))))) = refl
failure_cooldown_table (suc (suc (suc (suc (suc (suc (suc (suc (suc (suc (suc n))))))))))) =
    ground (arith, long_failure n)

pub failure_cooldown_bounds :
    (n : ℕ) → (cooldown_base ≤ failure_cooldown (n + 1)) × (failure_cooldown (n + 1) ≤ cooldown_cap)
unfolding failure_cooldown
failure_cooldown_bounds zero = (omega arith, omega arith)
failure_cooldown_bounds (suc zero) = (omega arith, omega arith)
failure_cooldown_bounds (suc (suc zero)) = (omega arith, omega arith)
failure_cooldown_bounds (suc (suc (suc zero))) = (omega arith, omega arith)
failure_cooldown_bounds (suc (suc (suc (suc zero)))) = (omega arith, omega arith)
failure_cooldown_bounds (suc (suc (suc (suc (suc n))))) =
    let longest : failure_cooldown (suc (suc (suc (suc (suc n)))) + 1) ≡ cooldown_cap =
      failure_cooldown_table (suc (suc (suc (suc (suc n)))) + 1) ∙ ground arith in
    (omega (arith, longest), omega (arith, longest))

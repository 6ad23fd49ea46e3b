-- ===== src/Selector/Examples.antt =====
-- Runs of internal/selector/selector.go, as in selector_test.go.
use mathlib.Core.List.{Permᴰ, Memᴰ}
use atomhub.Prelude.{◌≡◌, ◌↔◌, All, refl, true, false, List, [], ◌∷◌}
use atomhub.Types.{ok, err, no_healthy_keys}
use atomhub.Selector.{Candidate, select}
use atomhub.Selector.Least.{IsLeast, select-perm, select-IsLeast, select_fails_iff}

abbrev busy : Candidate
busy = record { key_id = 1; cooling_down = false; inflight = 4 }

abbrev idle : Candidate
idle = record { key_id = 2; cooling_down = false; inflight = 1 }

abbrev cooling : Candidate
cooling = record { key_id = 3; cooling_down = true; inflight = 0 }

abbrev pool : List Candidate
pool = busy ∷ idle ∷ cooling ∷ []

select-idle : select pool ≡ ok idle
unfolding select
select-idle = refl

select-perm_example : select (idle ∷ busy ∷ cooling ∷ []) ≡ select pool
select-perm_example =
    select-perm {cs = idle ∷ busy ∷ cooling ∷ []} {ds = pool} (Permᴰ.swap refl refl)

select-IsLeast_example : Memᴰ idle pool × (idle.cooling_down ≡ false) × IsLeast idle pool
select-IsLeast_example = select-IsLeast pool idle select-idle

select_fails_iff_example :
    (select (cooling ∷ []) ≡ err no_healthy_keys) ↔ All (λ c. c.cooling_down ≡ true) (cooling ∷ [])
select_fails_iff_example = select_fails_iff (cooling ∷ [])

-- ===== src/Auth/Session/Examples.antt =====
-- A session of an admin, with an encoding that moves every character past the dot.
use atomhub.Prelude.{
  ℕ, ◌+◌, ◌-◌, ◌≡◌, refl, ap, false, [], ◌∷◌, none, some, arith, ltb, elem, map, if◌then◌else◌,
}
use atomhub.Text.{Text, codes, trim_space}
use atomhub.Auth.Session.{Signing, unix, set_at, get}
use atomhub.Auth.Session.Cookie.{Encodes, get-set_at}

abbrev up : Text → Text
up t = map (λ (c : ℕ). c + 47) t

abbrev down : Text → Text
down t = map (λ (c : ℕ). c - 47) t

down-up : (t : Text) → down (up t) ≡ t
down-up [] = refl
down-up (c ∷ t) = ground (arith, down-up t)

no_dot-up : (t : Text) → elem 46 (up t) ≡ false
no_dot-up [] = refl
no_dot-up (c ∷ t) = ground (arith, no_dot-up t)

abbrev signing : Signing
signing = record { sign = λ t. t; encode = up; decode = λ t. some (down t) }

signing-Encodes : Encodes signing
signing-Encodes = record { decode = λ t. ap some (down-up t); no_dot = no_dot-up }

abbrev day : ℕ
day = 86400000000000

get-set_at_example : get signing (some (set_at signing day (codes " admin") 5)) 7 ≡ (
    if elem 124 (codes " admin")
    then none
    else if ltb (unix (5 + day)) (unix 7)
    then none
    else some (trim_space (codes " admin")))
unfolding trim_space
get-set_at_example = get-set_at signing signing-Encodes day (codes " admin") 5 7 refl (omega arith)

-- ===== src/Config/Valid.antt =====
-- A configuration that `Load` of internal/config/config.go returns can be run with.
use atomhub.Prelude.{
  ◌≡◌, refl, Bool, true, false, not, List, [], ◌∷◌, Option, none, some, All, Bool-cases, inl, inr,
}
use atomhub.Prelude.Int.{ℤ, pos, ltb_ℤ}
use atomhub.Text.{Text, codes, is_empty, trim_space}
use atomhub.Text.Trim.{trim_space_idem}
use atomhub.Text.Unique.{IsClean}
use atomhub.Types.{Result, ok, err}
use atomhub.Config.{
  Config, default_if_empty, first_of, tests_of, validate, config_of, checked, with_ttl, read_ttl,
  load,
}

-- Every text is trimmed and not empty, and sessions live for a while.
pub record IsValid (c : Config) : Type 0 where
  pub http_addr : IsClean c.http_addr
  pub db_path : IsClean c.db_path
  pub session_secret : IsClean c.session_secret
  pub session_ttl : ltb_ℤ (pos 0) c.session_ttl ≡ true
  pub admin_username : IsClean c.admin_username
  pub admin_password : IsClean c.admin_password
  pub gateway_token : IsClean c.gateway_token
  pub downstream_key_secret : IsClean c.downstream_key_secret

default_if_empty-IsClean :
    (v fallback : Text) → IsClean fallback → IsClean (default_if_empty v fallback)
unfolding default_if_empty
default_if_empty-IsClean v fallback c = elim (Bool-cases (is_empty (trim_space v))) [
  | inl e ↦ rw e c
  | inr e ↦ rw e (trim_space_idem v, e)
]

first_of-none :
    (tests : List (Bool × Text))
    → first_of tests ≡ none
    → All (λ (t : Bool × Text). t.0 ≡ false) tests
unfolding first_of
first_of-none [] h = tt
first_of-none ((failed, text) ∷ rest) h = elim (Bool-cases failed) [
  | inl e ↦ let never : some text ≡ none = rw e at h in cc
  | inr e ↦ (e, first_of-none rest (rw e at h))
]

not-false : (b : Bool) → not b ≡ false → b ≡ true
not-false true h = refl
not-false false h = cc

trimmed-IsClean : (t : Text) → is_empty (trim_space (trim_space t)) ≡ false → IsClean (trim_space t)
trimmed-IsClean t h = (trim_space_idem t, rw⁻¹ (trim_space_idem t) h)

-- What holds of a configuration, if there is one.
abbrev pub OnSuccess : (Config → Type 0) → Result Config → Type 0
OnSuccess P (ok c) = P c
OnSuccess P (err e) = Unit {0}

module _ (lookup : Text → Text) (parse_duration : Text → Result ℤ) where
  config_of-IsValid :
      (ttl : ℤ)
      → validate (config_of lookup parse_duration ttl) ≡ none
      → IsValid (config_of lookup parse_duration ttl)
  unfolding config_of validate trim_space
  config_of-IsValid ttl h =
      let tests = first_of-none (tests_of (config_of lookup parse_duration ttl)) h in
      record {
        http_addr = default_if_empty-IsClean _ _ (refl, refl);
        db_path = default_if_empty-IsClean _ _ (refl, refl);
        session_secret = default_if_empty-IsClean _ _ (refl, refl);
        session_ttl = not-false _ tests.1.1.1.0;
        admin_username = default_if_empty-IsClean _ _ (refl, refl);
        admin_password = default_if_empty-IsClean _ _ (refl, refl);
        gateway_token = default_if_empty-IsClean _ _ (refl, refl);
        downstream_key_secret =
            trimmed-IsClean (lookup (codes "ATOMHUB_DOWNSTREAM_KEY_SECRET")) tests.1.1.1.1.1.1.1.0;
      }

  checked-IsValid :
      (ttl : ℤ) (o : Option Text)
      → validate (config_of lookup parse_duration ttl) ≡ o
      → OnSuccess IsValid (checked lookup parse_duration (config_of lookup parse_duration ttl) o)
  unfolding checked
  checked-IsValid ttl none h = config_of-IsValid ttl h
  checked-IsValid ttl (some text) h = tt

  with_ttl-IsValid : (r : Result ℤ) → OnSuccess IsValid (with_ttl lookup parse_duration r)
  unfolding with_ttl
  with_ttl-IsValid (err e) = tt
  with_ttl-IsValid (ok ttl) = checked-IsValid ttl _ refl

  -- Whatever the environment holds, a configuration that is loaded has every text trimmed and not empty,
  -- the secret for the clients' tokens included, and a positive time to live.
  pub load-IsValid : OnSuccess IsValid (load lookup parse_duration)
  unfolding load
  load-IsValid = with_ttl-IsValid (read_ttl lookup parse_duration)

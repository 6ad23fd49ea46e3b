-- ===== src/Auth/Session.antt =====
-- The admin's session cookie: internal/auth/session.go, and the guard of internal/auth/middleware.go.
-- HMAC with the secret and base64 are the standard library's. `none` is a cookie that is not there or
-- not accepted.
pub mod Cookie
mod Examples
use atomhub.Prelude.{
  ℕ, ◌+◌, ◌/◌, Bool, true, false, List, [], ◌∷◌, ◌++◌, Option, none, some, ltb, leb, ◌==◌,
  if◌then◌else◌, list_eq,
}
use atomhub.Prelude.Int.{ℤ, pos, ltb_ℤ}
use atomhub.Text.{Text, codes, is_empty, trim_space}
use atomhub.Text.Decimal.{decimal, parse_int}
use atomhub.Text.Split.{split}
use atomhub.Types.{message, Result, ok, err}
use atomhub.Server.{Server, M, ◌>>=◌, pure, fail, now}

-- `sign` is the HMAC under the manager's secret.
pub record Signing : Type 0 where
  pub sign : Text → Text
  pub encode : Text → Text
  pub decode : Text → Option Text

-- the value of a session's time to live: a day where it is not positive
unfoldable pub time_to_live : ℕ → ℕ
time_to_live ttl = if ttl == 0 then 86400000000000 else ttl

abbrev pub unix : ℕ → ℕ
unix nanos = nanos / 1000000000

module _ (signing : Signing) where
  -- the payload and its signature, encoded
  unfoldable pub token_of : Text → Text
  token_of payload = signing.encode payload ++ (codes "." ++ signing.encode (signing.sign payload))

  abbrev pub payload_of : Text → ℕ → Text
  payload_of username expires_at = username ++ 124 ∷ decimal expires_at

  -- the value of the cookie that `Set` writes at a time
  unfoldable pub set_at : ℕ → Text → ℕ → Text
  set_at ttl username time = token_of (payload_of username (unix (time + ttl)))

  unfoldable pub set : ℕ → Text → M Text
  set ttl username =
      if is_empty (trim_space username)
      then fail (message (codes "username is required"))
      else do time ← now; pure (set_at ttl username time)

  unfoldable pub non_blank : Text → Option Text
  non_blank username = if is_empty (trim_space username) then none else some (trim_space username)

  -- the expiry against the clock
  unfoldable pub unexpired : Text → ℕ → Option ℤ → Option Text
  unfolding non_blank
  unexpired username time none = none
  unexpired username time (some exp) =
      if ltb_ℤ exp (pos (unix time)) then none else non_blank username

  unfoldable pub claims : ℕ → List Text → Option Text
  claims time (username ∷ exp ∷ []) = unexpired username time (parse_int exp)
  claims time parts = none

  unfoldable pub verified : ℕ → Option Text → Option Text → Option Text
  verified time none signature = none
  verified time (some payload) none = none
  verified time (some payload) (some signature) =
      if list_eq (signing.sign payload) signature then claims time (split 124 payload) else none

  unfoldable pub get_parts : ℕ → List Text → Option Text
  get_parts time (payload ∷ signature ∷ []) =
      verified time (signing.decode payload) (signing.decode signature)
  get_parts time parts = none

  -- `Get` at a time
  unfoldable pub get : Option Text → ℕ → Option Text
  get none time = none
  get (some cookie) time = get_parts time (split 46 cookie)

-- ===== src/Admin/Login/Decision.antt =====
-- Signing in: `handleAdminLogin` of internal/app/handlers_admin.go gives a cookie to those whose
-- password is verified, and to no one else.
use atomhub.Prelude.{ℕ, ◌≡◌, refl, ◌∙◌, ◌⊎◌, inl, inr, Bool, Bool-cases}
use atomhub.Text.{Text, is_empty, trim_space}
use atomhub.Types.{invalid_credentials, Result, ok, err}
use atomhub.Server.{AdminUser, Server}
use atomhub.Server.Outcome.{
  Outcome, Outcome-bind, Outcome-fail, Outcome-mono, Outcome-now, Outcome-pure, Holds, Untouched,
  next_reading,
}
use atomhub.Auth.Session
use atomhub.Auth.Session.{Signing, set_at}
use atomhub.Store.Admin.{authenticate}
use atomhub.Store.Admin.Credentials.{Accepts, Rejects, authenticate-Accepts}
use atomhub.Admin.Login.{
  LoginReply, refused, signed_in, refusal, session_reply, login_reply, handle_admin_login,
}

-- What `Set` writes at the clock's next reading, and nothing else.
set-set_at :
    (signing : Signing) (ttl : ℕ) (username : Text) (s : Server)
    → Outcome
        (λ e t. Untouched s t)
        (λ cookie t. (cookie ≡ set_at signing ttl username (next_reading s)) × Untouched s t)
        (Session.set signing ttl username)
        s
unfolding Session.set
set-set_at signing ttl username s = elim (Bool-cases (is_empty (trim_space username))) [
  | inl e ↦ rw e (
      Outcome-fail
        (record { tables = refl; memory = record { inflight = refl; keys_by_model = refl } }))
  | inr e ↦ rw e (
      Outcome-bind (
        Outcome-now λ rs. Outcome-pure (
          refl,
          record { tables = refl; memory = record { inflight = refl; keys_by_model = refl } },
        )))
]

module _ (signing : Signing) (verify : Text → Text → Bool) (ttl : ℕ)
    (username password : Text) where
  -- Someone whose password is verified is given the cookie of his name, or no one is given a cookie:
  -- with 401 only if the password is not verified for the name.
  pub Decided : Server → LoginReply → Type 0
  Decided s (signed_in name cookie) =
      (user : AdminUser) × Accepts verify username password s user
      × (name ≡ user.username)
      × ((time : ℕ) × (cookie ≡ set_at signing ttl user.username time))
  Decided s (refused status text) =
      (status ≡ 500) ⊎ ((status ≡ 401) × Rejects verify username password s invalid_credentials)

  replied :
      (s : Server) (user : AdminUser) (time : ℕ) (r : Result Text × Server)
      → Accepts verify username password s user
      → Holds
          (λ e t. Untouched s t)
          (λ cookie t. (cookie ≡ set_at signing ttl user.username time) × Untouched s t)
          r
      → Decided s (session_reply user.username r).0 × Untouched s (session_reply user.username r).1
  unfolding Decided session_reply
  replied s user time (err e, t) a h = (inl refl, h)
  replied s user time (ok cookie, t) a h = ((user, a, refl, (time, h.0)), h.1)

  decided :
      (s : Server) (r : Result AdminUser × Server)
      → Holds
          (λ e t. Rejects verify username password s e × Untouched s t)
          (λ user t. Accepts verify username password s user × Untouched s t)
          r
      → Decided s (login_reply signing verify ttl r).0
        × Untouched s (login_reply signing verify ttl r).1
  unfolding login_reply Decided refusal
  decided s (err e, t) (inl d, q) = (rw d (inl refl), q)
  decided s (err e, t) (inr (i, why), q) = (rw i (inr (refl, inr (refl, why))), q)
  decided s (ok user, t) (a, q) =
      replied s user (next_reading t) (Session.set signing ttl user.username t) a
        (Outcome-mono (set-set_at signing ttl user.username t) (λ e u x. onward u x)
          (λ cookie u x. (x.0, onward u x.1))).holds
    where
      onward : (u : Server) → Untouched t u → Untouched s u
      onward u x = record {
        tables = x.tables ∙ q.tables;
        memory = record {
          inflight = x.memory.inflight ∙ q.memory.inflight;
          keys_by_model = x.memory.keys_by_model ∙ q.memory.keys_by_model;
        };
      }

  -- A login gives a cookie only to a stored user whose hash verifies the password, and the cookie is
  -- the one of that user's name. It answers 401 only if there is no such user or the password is not
  -- verified, and else 500. No table, counter or catalog entry changes.
  pub handle_admin_login-Decided :
      (s : Server)
      → let r =
          handle_admin_login signing verify ttl
            (ok (record { username = username; password = password }))
            s in
        Decided s r.0 × Untouched s r.1
  unfolding handle_admin_login
  handle_admin_login-Decided s =
      decided s (authenticate verify username password s)
        (authenticate-Accepts verify username password s).holds

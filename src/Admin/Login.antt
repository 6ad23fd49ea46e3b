-- ===== src/Admin/Login.antt =====
-- The admin's session in the admin API: `handleAdminLogin` and `handleAdminSession` of
-- internal/app/handlers_admin.go, and `RequireAdmin` of internal/auth/middleware.go.
pub mod Decision
mod Examples
use atomhub.Prelude.{ℕ, Bool, List, [], ◌∷◌, Option, none, some}
use atomhub.Text.{Text, codes}
use atomhub.Types.{Error, invalid_credentials, Result, ok, err}
use atomhub.Server.{AdminUser, Server}
use atomhub.Auth.Session
use atomhub.Auth.Session.{Signing}
use atomhub.Store.Admin.{authenticate}

pub record LoginRequest : Type 0 where
  pub username : Text
  pub password : Text

-- A refusal with its status, or the name that is signed in with the value of its cookie.
pub data LoginReply : Type 0 where
  refused : ℕ → Text → LoginReply
  signed_in : Text → Text → LoginReply

refusal : Error → LoginReply
refusal invalid_credentials = refused 401 (codes "invalid credentials")
refusal e = refused 500 (codes "authentication failed")

session_reply : Text → Result Text × Server → LoginReply × Server
session_reply username (err e, s) = (refused 500 (codes "failed to create session"), s)
session_reply username (ok cookie, s) = (signed_in username cookie, s)

module _ (signing : Signing) (verify : Text → Text → Bool) (ttl : ℕ) where
  unfoldable pub login_reply : Result AdminUser × Server → LoginReply × Server
  unfolding refusal session_reply
  login_reply (err e, s) = (refusal e, s)
  login_reply (ok user, s) = session_reply user.username (Session.set signing ttl user.username s)

  unfoldable pub handle_admin_login : Result LoginRequest → Server → LoginReply × Server
  handle_admin_login (err e) s = (refused 400 (codes "invalid request body"), s)
  handle_admin_login (ok req) s = login_reply (authenticate verify req.username req.password s)

-- RequireAdmin: the name that a request goes on with; `none` is 401
unfoldable pub require_admin : Signing → Option Text → ℕ → Option Text
require_admin signing cookie time = Session.get signing cookie time

-- ===== src/App.antt =====
-- The program as a whole: `New` and the start of `Run` of internal/app/app.go. Opening the database
-- and bcrypt's hash are results that the environment gives. A start has an empty
-- catalog and no calls in flight; the tables are those of the file.
pub mod Static
pub mod Routes
pub mod Samples
pub mod Bootstrap
pub mod Ready
pub mod Reach
pub mod Revocation
mod Examples
use atomhub.Prelude.{ℕ, List, [], Option, none, some, ◌++◌}
use atomhub.Text.{Text, codes}
use atomhub.Types.{Error, error_text, message, Result, ok, err}
use atomhub.Server.{Server, M, ◌>>=◌, ◌>>◌, pure, fail, lift, ignore}
use atomhub.Server.Wrapped.{wrap}
use atomhub.Config.{Config, validate}
use atomhub.Store.Migrate.{migrate}
use atomhub.Store.Admin.{ensure_default_admin}
use atomhub.Catalog.{rebuild}
use atomhub.Probe.{Providers, probe_all}

-- the new process: what is not in the file is empty
abbrev pub restarted : Server → Server
restarted s = record s { inflight = []; keys_by_model = [] }

-- What the environment says to a start: OpenSQLite and HashPassword.
pub record Startup : Type 0 where
  pub opened : Result (Unit {0})
  pub hash_password : Text → Result Text

-- up to the default admin
pub prepare : Startup → Config → M (Unit {0})
prepare env cfg = do
  lift env.opened
  wrap (codes "run migrations: ") migrate
  password_hash ←
      wrap (codes "hash default admin password: ") (lift (env.hash_password cfg.admin_password))
  wrap (codes "ensure default admin: ") (ensure_default_admin cfg.admin_username password_hash)

bootstrap : Startup → Config → M (Unit {0})
bootstrap env cfg = do prepare env cfg; ignore rebuild

unless_invalid : Startup → Config → Option Text → M (Unit {0})
unfolding bootstrap
unless_invalid env cfg none = bootstrap env cfg
unless_invalid env cfg (some text) = fail (message (codes "validate config: " ++ text))

-- New
pub new : Startup → Config → M (Unit {0})
unfolding unless_invalid
new env cfg s = unless_invalid env cfg (validate cfg) (restarted s)

-- the probes that `Run` starts with
pub initial_probe : Providers → Server → Server
initial_probe providers s = (probe_all providers s).1

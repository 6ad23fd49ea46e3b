-- ===== src/App/Bootstrap.antt =====
-- `New` of internal/app/app.go.
use atomhub.Prelude.{Option, none, some}
use atomhub.Text.{Text, codes}
use atomhub.Server.{lift}
use atomhub.Server.Invariant.{
  Maintains, Maintains-bind, Maintains-fail, Maintains-lift, Maintains-ignore,
}
use atomhub.Store.Sound.{IsSound}
use atomhub.Store.Admin.{ensure_default_admin}
use atomhub.Store.Admin.Sound.{ensure_default_admin-Maintains}
use atomhub.Catalog.Sound.{rebuild-Maintains}
use atomhub.Server.Wrapped.{wrap-Maintains}
use atomhub.Store.Migrate.{migrate}
use atomhub.Store.Migrate.Complete.{migrate-Maintains}
use atomhub.Config.{Config, validate}
use atomhub.App.{Startup, restarted, prepare, bootstrap, unless_invalid, new}

prepare-Maintains : (env : Startup) (cfg : Config) → Maintains IsSound (prepare env cfg)
unfolding prepare
prepare-Maintains env cfg = Maintains-bind (Maintains-lift env.opened) (λ u.
    Maintains-bind (wrap-Maintains (codes "run migrations: ") migrate (migrate-Maintains IsSound))
      (λ v.
        Maintains-bind
          (wrap-Maintains (codes "hash default admin password: ")
            (lift (env.hash_password cfg.admin_password))
            (Maintains-lift (env.hash_password cfg.admin_password)))
          (λ hash.
            wrap-Maintains (codes "ensure default admin: ")
              (ensure_default_admin cfg.admin_username hash)
              (ensure_default_admin-Maintains cfg.admin_username hash))))

bootstrap-Maintains : (env : Startup) (cfg : Config) → Maintains IsSound (bootstrap env cfg)
unfolding bootstrap
bootstrap-Maintains env cfg =
    Maintains-bind (prepare-Maintains env cfg) (λ w. Maintains-ignore rebuild-Maintains)

unless_invalid-Maintains :
    (env : Startup) (cfg : Config) (o : Option Text) → Maintains IsSound (unless_invalid env cfg o)
unfolding unless_invalid
unless_invalid-Maintains env cfg none = bootstrap-Maintains env cfg
unless_invalid-Maintains env cfg (some text) = Maintains-fail _

pub new-Maintains : (env : Startup) (cfg : Config) → Maintains IsSound (new env cfg)
unfolding new
new-Maintains env cfg = record {
  at = λ s h. (unless_invalid-Maintains env cfg (validate cfg)).at (restarted s) h;
}

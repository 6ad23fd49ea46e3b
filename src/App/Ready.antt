-- ===== src/App/Ready.antt =====
-- What `New` of internal/app/app.go promises of a server that it hands on.
use atomhub.Prelude.{
  ℕ, ◌+◌, ◌≡◌, refl, ◌∙◌, ap, ◌⊎◌, inl, inr, ◌&&◌, [], Option, none, some, elem, any, sym, find?,
}
use atomhub.Text.{Text, codes, trim_space}
use atomhub.Types.{Error, database, Result, ok, err}
use atomhub.Server.{Server, Tables, lift}
use atomhub.Server.Outcome.{
  Outcome, Holds, Outcome-seq, Outcome-mono, Outcome-both, Outcome-result, Outcome-fail, Untouched,
  Untouched-refl, SameMemory,
}
use atomhub.Store.Models.{is_model}
use atomhub.Store.Admin.{has_name, ensure_default_admin}
use atomhub.Store.Admin.Credentials.{admin_of, with_default, ensure_default_admin-Seeds}
use atomhub.Catalog.{rebuild, keys_for_model, is_enabled}
use atomhub.Catalog.Lookup.{Indexes, rebuild-Indexes}
use atomhub.Server.Wrapped.{wrap, Outcome-wrap, Outcome-lift}
use atomhub.Store.Migrate.{migrate}
use atomhub.Store.Migrate.Grew.{Grew}
use atomhub.Store.Migrate.Complete.{IsEarlier, IsComplete, migrate-Adds}
use atomhub.Config.{Config, validate}
use atomhub.App.{Startup, restarted, prepare, bootstrap, unless_invalid, new}

-- The catalog lists a key for a model exactly where it is enabled and has a row for it.
abbrev pub IsFilled : Server → Type 0
IsFilled t =
    (m : Text) (id : ℕ)
    → elem id (keys_for_model m t)
      ≡ (is_enabled t.tables.upstream_keys id && any (is_model id m) t.tables.key_models)

-- What holds of the state that a start hands on, as against the tables it found.
pub record Ready (env : Startup) (cfg : Config) (s t : Server) : Type 0 where
  pub valid : validate cfg ≡ none
  pub hash : Text
  pub hashed : env.hash_password cfg.admin_password ≡ ok hash
  pub admins :
      (name : Text)
      → admin_of name t
        ≡ with_default
            (trim_space cfg.admin_username)
            (trim_space hash)
            (s.tables.sequences.admin_users + 1)
            name
            (admin_of name s)
  pub idle : t.inflight ≡ []
  pub catalog :
      (((rebuild (prepare env cfg (restarted s)).1).0 ≡ err database) × (t.keys_by_model ≡ []))
      ⊎ IsFilled t

module _ (env : Startup) (cfg : Config) (s : Server) where
  abbrev Unchanged : Server → Type 0
  Unchanged t = Untouched (restarted s) t

  -- what holds of the state that the rebuild begins from
  record Prepared (u : Server) : Type 0 where
    hash : Text
    hashed : env.hash_password cfg.admin_password ≡ ok hash
    admins :
        (name : Text)
        → admin_of name u
          ≡ with_default
              (trim_space cfg.admin_username)
              (trim_space hash)
              (s.tables.sequences.admin_users + 1)
              name
              (admin_of name s)
    memory : SameMemory (restarted s) u

  Holds-Ready :
      (u : Server) (r : Result (Unit {0}) × Server)
      → validate cfg ≡ none
      → Prepared u
      → (prepare env cfg (restarted s)).1 ≡ u
      → rebuild u ≡ r
      → Holds (λ e t. (e ≡ database) × Untouched u t) (λ v t. Indexes u t) r
      → Ready env cfg s r.1
  Holds-Ready u (ok v, t) valid p it run i = record {
    valid = valid;
    hash = p.hash;
    hashed = p.hashed;
    admins =
        λ name. ap (λ (x : Tables). find? (has_name name) x.admin_users) i.tables ∙ p.admins name;
    idle = i.inflight ∙ p.memory.inflight;
    catalog = inr (λ m id.
        i.supports m id
        ∙ ap (λ (x : Tables). is_enabled x.upstream_keys id && any (is_model id m) x.key_models)
            (sym i.tables));
  }
  Holds-Ready u (err e, t) valid p it run (is_database, q) = record {
    valid = valid;
    hash = p.hash;
    hashed = p.hashed;
    admins =
        λ name. ap (λ (x : Tables). find? (has_name name) x.admin_users) q.tables ∙ p.admins name;
    idle = q.memory.inflight ∙ p.memory.inflight;
    catalog = inl (
      ap (λ (x : Server). (rebuild x).0) it
          ∙ ap (λ (x : Result (Unit {0}) × Server). x.0) run
          ∙ ap (λ (x : Error). err x) is_database,
      q.memory.keys_by_model ∙ p.memory.keys_by_model,
    );
  }

  Untouched-after : (x t : Server) → Unchanged x → Untouched x t → Unchanged t
  Untouched-after x t q u = record {
    tables = u.tables ∙ q.tables;
    memory = record {
      inflight = u.memory.inflight ∙ q.memory.inflight;
      keys_by_model = u.memory.keys_by_model ∙ q.memory.keys_by_model;
    };
  }

  -- the default admin
  seeded-Prepared :
      (hash : Text) (x : Server)
      → env.hash_password cfg.admin_password ≡ ok hash
      → Unchanged x
      → Outcome
          (λ e t. Unchanged t)
          (λ u t. Prepared t)
          (wrap (codes "ensure default admin: ") (ensure_default_admin cfg.admin_username hash))
          x
  seeded-Prepared hash x hashed q =
      Outcome-wrap Unchanged (codes "ensure default admin: ") _
        (ensure_default_admin cfg.admin_username hash) x
        (Outcome-mono (ensure_default_admin-Seeds cfg.admin_username hash x)
          (λ e t u. Untouched-after x t q u.0)
          (λ v t f. record {
            hash = hash;
            hashed = hashed;
            admins = λ name.
                f.admins name
                ∙ ap
                    (λ (a : Tables).
                      with_default (trim_space cfg.admin_username) (trim_space hash)
                        (a.sequences.admin_users + 1) name (find? (has_name name) a.admin_users))
                    q.tables;
            memory = record {
              inflight = f.memory.inflight ∙ q.memory.inflight;
              keys_by_model = f.memory.keys_by_model ∙ q.memory.keys_by_model;
            };
          }))

  Grew-Unchanged : (t u : Server) → Unchanged t → Grew t u → Unchanged u
  Grew-Unchanged t u q g = record {
    tables = g.untouched.tables ∙ q.tables;
    memory = record {
      inflight = g.untouched.memory.inflight ∙ q.memory.inflight;
      keys_by_model = g.untouched.memory.keys_by_model ∙ q.memory.keys_by_model;
    };
  }

  migrate-Unchanged :
      (t : Server) → Unchanged t → Outcome (λ e u. Unchanged u) (λ v u. Unchanged u) migrate t
  migrate-Unchanged t q =
      Outcome-mono (migrate-Adds t) (λ e u g. Grew-Unchanged t u q g)
        (λ v u (g : Grew t u × (IsEarlier t.schema → IsComplete u.schema)).
          Grew-Unchanged t u q g.0)

  prepare-Prepared :
      Outcome (λ e t. Unchanged t) (λ u t. Prepared t) (prepare env cfg) (restarted s)
  unfolding prepare
  prepare-Prepared =
      Outcome-seq (Outcome-lift Unchanged env.opened (restarted s) (Untouched-refl (restarted s)))
        λ u t opened.
          Outcome-seq
            (Outcome-wrap Unchanged (codes "run migrations: ") (λ v w. Unchanged w) migrate t
              (migrate-Unchanged t opened.1))
            λ v w migrated.
              Outcome-seq
                (Outcome-wrap Unchanged (codes "hash default admin password: ")
                  (λ h x. (env.hash_password cfg.admin_password ≡ ok h) × Unchanged x)
                  (lift (env.hash_password cfg.admin_password)) w
                  (Outcome-lift Unchanged (env.hash_password cfg.admin_password) w migrated))
                λ h x hashed. seeded-Prepared h x hashed.0 hashed.1

  bootstrap-Ready :
      validate cfg ≡ none
      → Outcome (λ e t. Unchanged t) (λ u t. Ready env cfg s t) (bootstrap env cfg) (restarted s)
  unfolding bootstrap
  bootstrap-Ready valid =
      Outcome-seq
        (Outcome-mono
          (Outcome-both prepare-Prepared (Outcome-result (prepare env cfg) (restarted s)))
          (λ e t h. h.0) (λ u t h. h))
        (λ u t (h : Prepared t × (prepare env cfg (restarted s) ≡ (ok u, t))). record {
          holds =
              Holds-Ready t (rebuild t) valid h.0 (ap (λ (x : Result (Unit {0}) × Server). x.1) h.1)
                refl (rebuild-Indexes t).holds;
        })

  or_invalid :
      (o : Option Text)
      → validate cfg ≡ o
      → Outcome
          (λ e t. Unchanged t)
          (λ u t. Ready env cfg s t)
          (unless_invalid env cfg o)
          (restarted s)
  unfolding unless_invalid
  or_invalid none valid = bootstrap-Ready valid
  or_invalid (some text) valid = Outcome-fail (Untouched-refl (restarted s))

  -- A start that succeeds had a valid configuration; the admin of its name is there, with the hash of
  -- its password where the name had no user, and every other user is kept; no call is in flight; and
  -- the catalog lists a key for a model exactly where the tables say so, or, only where its
  -- rebuild failed, is empty. A start that fails has changed no row.
  pub new-Ready : Outcome (λ e t. Unchanged t) (λ u t. Ready env cfg s t) (new env cfg) s
  unfolding new
  new-Ready = record { holds = (or_invalid (validate cfg) refl).holds }

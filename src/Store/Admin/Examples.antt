-- ===== src/Store/Admin/Examples.antt =====
-- The admin of the sample server, with passwords that are their own hashes.
use atomhub.Text.{codes}
use atomhub.Prelude.{list_eq}
use atomhub.Server.Outcome.{Outcome, Untouched}
use atomhub.Samples.{sample}
use atomhub.Store.Admin.{authenticate, ensure_default_admin}
use atomhub.Store.Admin.Credentials.{
  Accepts, Rejects, Seeded, Unseeded, authenticate-Accepts, ensure_default_admin-Seeds,
}

authenticate-Accepts_example :
    Outcome
      (λ e t. Rejects list_eq (codes "admin") (codes "pw") sample e × Untouched sample t)
      (λ user t. Accepts list_eq (codes "admin") (codes "pw") sample user × Untouched sample t)
      (authenticate list_eq (codes "admin") (codes "pw"))
      sample
authenticate-Accepts_example = authenticate-Accepts list_eq (codes "admin") (codes "pw") sample

ensure_default_admin-Seeds_example :
    Outcome
      (λ e t. Untouched sample t × Unseeded (codes "admin") (codes "pw") e)
      (λ u t. Seeded (codes "admin") (codes "pw") sample t)
      (ensure_default_admin (codes "admin") (codes "pw"))
      sample
ensure_default_admin-Seeds_example = ensure_default_admin-Seeds (codes "admin") (codes "pw") sample

-- ===== src/Admin/Login/Examples.antt =====
-- A login on the sample server, where no admin is stored.
use atomhub.Prelude.{[], ◌∷◌, some, list_eq}
use atomhub.Text.{codes}
use atomhub.Types.{ok}
use atomhub.Server.{Server}
use atomhub.Server.Outcome.{Untouched}
use atomhub.Auth.Session.{Signing}
use atomhub.Samples.{sample}
use atomhub.Admin.Login.{handle_admin_login}
use atomhub.Admin.Login.Decision.{Decided, handle_admin_login-Decided}

abbrev signing : Signing
signing = record { sign = λ t. t; encode = λ t. t; decode = λ t. some t }

abbrev with_admin : Server
with_admin = record sample {
  tables = record sample.tables {
    admin_users = record { id = 1; username = codes "admin"; password_hash = codes "pw" } ∷ [];
  };
}

handle_admin_login-Decided_example :
    let r =
      handle_admin_login signing list_eq 60000000000
        (ok (record { username = codes "admin"; password = codes "pw" }))
        with_admin in
    Decided signing list_eq 60000000000 (codes "admin") (codes "pw") with_admin r.0
    × Untouched with_admin r.1
handle_admin_login-Decided_example =
    handle_admin_login-Decided signing list_eq 60000000000 (codes "admin") (codes "pw") with_admin

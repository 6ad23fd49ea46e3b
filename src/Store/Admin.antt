-- ===== src/Store/Admin.antt =====
-- The admin users: internal/store/admin.go. `verify` is `VerifyPassword` of internal/auth/password.go,
-- which asks bcrypt. The schema lets a username stand once.
pub mod Credentials
pub mod Sound
mod Examples
use atomhub.Prelude.{
  ℕ, ◌+◌, Bool, true, false, ◌||◌, List, [], ◌∷◌, ◌++◌, Option, none, some, if◌then◌else◌, find?,
  list_eq,
}
use atomhub.Text.{Text, codes, is_empty, trim_space}
use atomhub.Types.{invalid_credentials, message}
use atomhub.Server.{AdminUser, Server, Tables, M, ◌>>=◌, ◌>>◌, pure, fail, query, exec}
use atomhub.Store.Rows.{exists_where}

abbrev pub has_name : Text → AdminUser → Bool
has_name username user = list_eq user.username username

-- insert … on conflict(username) do nothing
unfoldable pub insert_admin : Text → Text → Tables → Tables
insert_admin username password_hash t =
    let id = t.sequences.admin_users + 1 in
    if exists_where (has_name username) t.admin_users then t else record t {
      admin_users =
          t.admin_users
          ++ record { id = id; username = username; password_hash = password_hash } ∷ [];
      sequences = record t.sequences { admin_users = id };
    }

insert_default : Text → Text → M (Unit {0})
insert_default username password_hash = exec (λ t. some (tt, insert_admin username password_hash t))

pub ensure_default_admin : Text → Text → M (Unit {0})
unfolding insert_default
ensure_default_admin username password_hash =
    if is_empty (trim_space username) || is_empty (trim_space password_hash)
    then fail (message (codes "username and password hash are required"))
    else insert_default (trim_space username) (trim_space password_hash)

-- `none` is sql.ErrNoRows
pub get_by_username : Text → M (Option AdminUser)
get_by_username username = query (λ t. find? (has_name (trim_space username)) t.admin_users)

-- what `Authenticate` does with the row
check_password : (Text → Text → Bool) → Text → Option AdminUser → M AdminUser
check_password verify password none = fail invalid_credentials
check_password verify password (some user) =
    if verify user.password_hash password then pure user else fail invalid_credentials

pub authenticate : (Text → Text → Bool) → Text → Text → M AdminUser
unfolding check_password
authenticate verify username password = do
  user ← get_by_username username
  check_password verify password user

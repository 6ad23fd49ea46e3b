-- ===== src/Store/Admin/Credentials.antt =====
-- Who may sign in: `EnsureDefaultAdmin` and `Authenticate` of internal/store/admin.go.
use atomhub.Prelude.{
  ℕ, ◌+◌, ◌≡◌, refl, ◌⊎◌, inl, inr, Bool, true, false, List, [], ◌∷◌, ◌++◌, Option, none, some,
  if◌then◌else◌, find?, list_eq, list_eq_iff, Bool-cases, Option-cases, ap, ◌∙◌, sym,
}
use atomhub.Text.{Text, codes, is_empty, trim_space}
use atomhub.Types.{Error, message, database, invalid_credentials}
use atomhub.Server.{AdminUser, Server, Tables}
use atomhub.Server.Outcome.{
  Untouched-with_faults, Outcome, Outcome-bind, Outcome-query, Outcome-exec, Outcome-pure,
  Outcome-fail, SameMemory, Untouched, Untouched-refl,
}
use atomhub.Store.Rows.{exists_where}
use atomhub.Store.Admin.{
  has_name, insert_admin, insert_default, ensure_default_admin, get_by_username, check_password,
  authenticate,
}

-- The row of a username.
abbrev pub admin_of : Text → Server → Option AdminUser
admin_of username s = find? (has_name username) s.tables.admin_users

-- The user may sign in with the password.
abbrev pub Accepts : (Text → Text → Bool) → Text → Text → Server → AdminUser → Type 0
Accepts verify username password s user =
    (admin_of (trim_space username) s ≡ some user) × (verify user.password_hash password ≡ true)

-- Why nobody may.
abbrev pub Rejects : (Text → Text → Bool) → Text → Text → Server → Error → Type 0
Rejects verify username password s e =
    (e ≡ database)
    ⊎ ((e ≡ invalid_credentials)
        × ((user : AdminUser)
            → admin_of (trim_space username) s ≡ some user
            → verify user.password_hash password ≡ false))

same_user :
    (verify : Text → Text → Bool) (password : Text) (o : Option AdminUser) (user other : AdminUser)
    → o ≡ some user
    → o ≡ some other
    → verify user.password_hash password ≡ false
    → verify other.password_hash password ≡ false
same_user verify password o user other e h v = let it : other ≡ user = cc in rw it v

check_password-Accepts :
    {t : Server} (verify : Text → Text → Bool) (username password : Text) (s : Server)
    (o : Option AdminUser)
    → admin_of (trim_space username) s ≡ o
    → Untouched s t
    → Outcome
        (λ e t. Rejects verify username password s e × Untouched s t)
        (λ user t. Accepts verify username password s user × Untouched s t)
        (check_password verify password o)
        t
unfolding check_password
check_password-Accepts verify username password s none e q =
    Outcome-fail (inr (refl, λ user h. cc), q)
check_password-Accepts verify username password s (some user) e q =
    elim (Bool-cases (verify user.password_hash password)) [
      | inl v ↦ rw v (Outcome-pure ((e, v), q))
      | inr v ↦
          rw v
            (Outcome-fail (inr (refl, λ other h. same_user verify password _ user other e h v), q))
    ]

-- Authentication succeeds with the user stored under the trimmed name if the password is verified
-- against its hash. It fails with ErrInvalidCredentials only if there is no such user or the password
-- is not verified, and else because the query failed. Nothing is changed.
pub authenticate-Accepts :
    (verify : Text → Text → Bool) (username password : Text) (s : Server)
    → Outcome
        (λ e t. Rejects verify username password s e × Untouched s t)
        (λ user t. Accepts verify username password s user × Untouched s t)
        (authenticate verify username password)
        s
unfolding authenticate get_by_username
authenticate-Accepts verify username password s = Outcome-bind (
    Outcome-query _ (λ fs. (inl refl, Untouched-with_faults))
      (λ fs. check_password-Accepts verify username password s _ refl Untouched-with_faults))

find-append :
    (p : AdminUser → Bool) (xs : List AdminUser) (x : AdminUser)
    → find? p (xs ++ x ∷ [])
      ≡ elim (find? p xs) [ some user ↦ some user | none ↦ if p x then some x else none ]
find-append p [] x = refl
find-append p (y ∷ xs) x = elim (Bool-cases (p y)) [
  | inl e ↦ rw e refl
  | inr e ↦ rw e (find-append p xs x)
]

not_found-exists_where :
    (p : AdminUser → Bool) (xs : List AdminUser) → find? p xs ≡ none → exists_where p xs ≡ false
unfolding exists_where
not_found-exists_where p [] h = refl
not_found-exists_where p (y ∷ xs) h = elim (Bool-cases (p y)) [
  | inl e ↦ let never : some y ≡ none = rw e at h in cc
  | inr e ↦ rw e (not_found-exists_where p xs (rw e at h))
]

-- The row of a name, with the default admin where it has none.
abbrev pub with_default : Text → Text → ℕ → Text → Option AdminUser → Option AdminUser
with_default username hash id name (some user) = some user
with_default username hash id name none =
    if list_eq username name
    then some (record { id = id; username = username; password_hash = hash })
    else none

find-insert_admin :
    (username hash name : Text) (t : Tables)
    → find? (has_name name) (insert_admin username hash t).admin_users
      ≡ with_default username hash
          (t.sequences.admin_users + 1)
          name
          (find? (has_name name) t.admin_users)
unfolding insert_admin
find-insert_admin username hash name t =
    elim (Bool-cases (exists_where (has_name username) t.admin_users)) [
      | inl e ↦ rw e (elim (Option-cases (find? (has_name name) t.admin_users)) [
        | inr (user, found) ↦ rw found refl
        | inl missing ↦
            let absent = not_found-exists_where (has_name name) t.admin_users missing in
            rw missing (elim (Bool-cases (list_eq username name)) [
              | inl same ↦
                  let it : username ≡ name = (list_eq_iff username name).0 same in
                  let there : exists_where (has_name name) t.admin_users ≡ true =
                    sym (ap (λ (n : Text). exists_where (has_name n) t.admin_users) it) ∙ e in
                  let never : true ≡ false = sym there ∙ absent in cc
              | inr other ↦ rw other refl
            ])
      ])
      | inr e ↦ rw e (
          find-append (has_name name) t.admin_users _
          ∙ elim (Option-cases (find? (has_name name) t.admin_users)) [
            | inr (user, found) ↦ rw found refl
            | inl missing ↦ rw missing refl
          ])
    ]

insert_admin_keys :
    (username hash : Text) (t : Tables)
    → (insert_admin username hash t).upstream_keys ≡ t.upstream_keys
unfolding insert_admin
insert_admin_keys username hash t =
    elim (Bool-cases (exists_where (has_name username) t.admin_users)) [
      | inl e ↦ rw e refl
      | inr e ↦ rw e refl
    ]

abbrev pub IsBlank : Text → Type 0
IsBlank text = is_empty (trim_space text) ≡ true

abbrev pub IsGiven : Text → Type 0
IsGiven text = is_empty (trim_space text) ≡ false

-- Why `EnsureDefaultAdmin` fails: the name or the hash is blank, or else its statement failed.
pub data Unseeded (username hash : Text) : Error → Type 0 where
  no_name :
      IsBlank username
      → Unseeded username hash (message (codes "username and password hash are required"))
  no_hash :
      IsBlank hash
      → Unseeded username hash (message (codes "username and password hash are required"))
  statement_failed : IsGiven username → IsGiven hash → Unseeded username hash database

-- An admin of the trimmed name and hash where the name had none, and every user that was there; no
-- upstream key and no counter is changed. Neither the name nor the hash is blank.
pub record Seeded (username hash : Text) (s t : Server) : Type 0 where
  pub named : IsGiven username
  pub hashed : IsGiven hash
  pub admins :
      (name : Text)
      → admin_of name t
        ≡ with_default
            (trim_space username)
            (trim_space hash)
            (s.tables.sequences.admin_users + 1)
            name
            (admin_of name s)
  pub keys : t.tables.upstream_keys ≡ s.tables.upstream_keys
  pub memory : SameMemory s t

-- `EnsureDefaultAdmin` makes an admin of the trimmed name and hash where the name has none, and changes
-- no user that is there, nor an upstream key or a counter. It fails where one of them is blank, and only
-- then or where the statement fails, and then nothing is changed.
pub ensure_default_admin-Seeds :
    (username hash : Text) (s : Server)
    → Outcome
        (λ e t. Untouched s t × Unseeded username hash e)
        (λ u t. Seeded username hash s t)
        (ensure_default_admin username hash)
        s
unfolding ensure_default_admin insert_default
ensure_default_admin-Seeds username hash s = elim (Bool-cases (is_empty (trim_space username))) [
  | inl n ↦ rw n (Outcome-fail (Untouched-refl s, no_name n))
  | inr n ↦ elim (Bool-cases (is_empty (trim_space hash))) [
    | inl h ↦ rw (n, h) (Outcome-fail (Untouched-refl s, no_hash h))
    | inr h ↦
        rw (n, h)
          (Outcome-exec _ tt _ refl (λ fs. (Untouched-with_faults, statement_failed n h))
            (λ fs. record {
              named = n;
              hashed = h;
              admins =
                  λ name. find-insert_admin (trim_space username) (trim_space hash) name s.tables;
              keys = insert_admin_keys (trim_space username) (trim_space hash) s.tables;
              memory = record { inflight = refl; keys_by_model = refl };
            }))
  ]
]

-- ===== src/Store/Sound.antt =====
-- What the tables of internal/store/migrate.go always are: their ids ascend up to the last one given
-- out, and no row repeats what the schema lets stand once.
pub mod Rules
pub mod Tokens
pub mod Statements
use atomhub.Prelude.{ℕ, ◌≤◌, ◌<◌, ◌≡◌, Bool, false, ◌&&◌, List, [], ◌∷◌, list_eq, ◌==◌}
use atomhub.Types.{UpstreamKey, KeyModel, KeyState, DownstreamKey, RequestLog}
use atomhub.Server.{AdminUser, Tables}
use atomhub.Store.Rows.{exists_where}

-- The column ascends strictly, from above `low` up to `high`.
abbrev pub Ascends {ℓ} : {A : Type ℓ} → (A → ℕ) → ℕ → List A → ℕ → Type 0
Ascends column low [] high = low ≤ high
Ascends column low (r ∷ rows) high = (low < column r) × Ascends column (column r) rows high

-- No row is the same as a later one.
abbrev pub IsDistinct {ℓ} : {A : Type ℓ} → (A → A → Bool) → List A → Type 0
IsDistinct same [] = Unit {0}
IsDistinct same (r ∷ rows) = (exists_where (same r) rows ≡ false) × IsDistinct same rows

-- unique(key_id, model)
abbrev pub same_pair : KeyModel → KeyModel → Bool
same_pair a b = (a.key_id == b.key_id) && list_eq a.model b.model

-- key_state's primary key
abbrev pub same_key : KeyState → KeyState → Bool
same_key a b = a.key_id == b.key_id

-- the unique index of the token hashes
abbrev pub same_hash : DownstreamKey → DownstreamKey → Bool
same_hash a b = list_eq a.token_hash b.token_hash

-- unique usernames
abbrev pub same_name : AdminUser → AdminUser → Bool
same_name a b = list_eq a.username b.username

pub record IsSound (t : Tables) : Type 0 where
  pub keys : Ascends (λ (r : UpstreamKey). r.id) 0 t.upstream_keys t.sequences.upstream_keys
  pub models : IsDistinct same_pair t.key_models
  pub states : IsDistinct same_key t.key_state
  pub clients :
      Ascends (λ (r : DownstreamKey). r.id) 0 t.downstream_keys t.sequences.downstream_keys
  pub hashes : IsDistinct same_hash t.downstream_keys
  pub logs : Ascends (λ (r : RequestLog). r.id) 0 t.request_logs t.sequences.request_logs
  pub admins : IsDistinct same_name t.admin_users

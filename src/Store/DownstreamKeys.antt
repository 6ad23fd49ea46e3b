-- ===== src/Store/DownstreamKeys.antt =====
-- The clients of the gateway: internal/store/downstream_keys.go. The schema lets a token hash stand
-- once.
pub mod Lookup
pub mod Creation
pub mod Renewal
pub mod Sound
pub mod Revocation
mod Examples
use atomhub.Prelude.{
  ℕ, zero, suc, ◌+◌, Bool, true, false, not, ◌&&◌, List, [], ◌∷◌, ◌++◌, Option, none, some, ltb,
  ◌==◌, if◌then◌else◌, find?, list_eq,
}
use atomhub.Prelude.Int.{pos}
use atomhub.Prelude.Sort.{sort}
use atomhub.Text.{Text, codes, is_empty, trim_space}
use atomhub.Types.{DownstreamKey, UsageTokens, downstream_key_not_found, message, Result}
use atomhub.Server.{Server, Tables, M, ◌>>=◌, ◌>>◌, pure, fail, lift, driver_call, query, exec, now}
use atomhub.Auth.{
  Crypto, hash_downstream_token, generate_downstream_token, encrypt_downstream_token,
  decrypt_downstream_token,
}
use atomhub.Store.Rows.{update_where, delete_where, exists_where}
use atomhub.Store.Logs
use atomhub.Store.Logs.{has_id}

-- scanDownstreamKey
unfoldable pub scan_downstream_key : DownstreamKey → DownstreamKey
scan_downstream_key row = record row { encrypted_token = trim_space row.encrypted_token }

unfoldable pub or_client_not_found : Option DownstreamKey → M DownstreamKey
or_client_not_found none = fail downstream_key_not_found
or_client_not_found (some row) = pure (scan_downstream_key row)

pub get : ℕ → M DownstreamKey
unfolding or_client_not_found
get id = do row ← query (λ t. find? (has_id id) t.downstream_keys); or_client_not_found row

abbrev pub has_hash : Text → DownstreamKey → Bool
has_hash hash row = list_eq row.token_hash hash

-- where token_hash = ? and enabled = 1
abbrev pub is_open : Text → DownstreamKey → Bool
is_open hash row = has_hash hash row && row.enabled

-- The row that `Create` inserts.
abbrev pub new_client : Text → Text × Text × Text → Text → Bool → ℕ → ℕ → DownstreamKey
new_client name (token, prefix, hash) encrypted enabled time id = record {
  id = id;
  name = name;
  token_prefix = prefix;
  token_hash = hash;
  encrypted_token = encrypted;
  enabled = enabled;
  last_used_at = none;
  request_count = 0;
  prompt_tokens = pos 0;
  completion_tokens = pos 0;
  total_tokens = pos 0;
  created_at = time;
  updated_at = time;
}

unfoldable pub insert_client : (ℕ → DownstreamKey) → Text → Tables → Option (ℕ × Tables)
insert_client row hash t =
    let id = t.sequences.downstream_keys + 1 in
    if exists_where (has_hash hash) t.downstream_keys
    then none
    else some (
      id,
      record t {
        downstream_keys = t.downstream_keys ++ row id ∷ [];
        sequences = record t.sequences { downstream_keys = id };
      },
    )

abbrev pub name_required : Text
name_required = codes "name is required"

-- an update of the rows with an id, and whether there were any
abbrev pub update_id : ℕ → (DownstreamKey → DownstreamKey) → Tables → Bool × Tables
update_id id change t = (
  exists_where (has_id id) t.downstream_keys,
  record t { downstream_keys = update_where (has_id id) change t.downstream_keys },
)

-- `RowsAffected`, with the error for no row
require_rows : Bool → M (Unit {0})
require_rows affected = do driver_call; if affected then pure tt else fail downstream_key_not_found

update_row : ℕ → Text → Bool → M DownstreamKey
unfolding require_rows
update_row id name enabled = do
  time ← now
  affected ← exec (λ t.
      some
        (update_id id (λ row. record row { name = name; enabled = enabled; updated_at = time }) t))
  require_rows affected
  get id

pub update : DownstreamKey → M DownstreamKey
unfolding update_row
update key =
    if key.id == 0
    then fail downstream_key_not_found
    else if is_empty (trim_space key.name)
    then fail (message name_required)
    else update_row key.id (trim_space key.name) key.enabled

unfoldable pub delete : ℕ → M (Unit {0})
unfolding require_rows
delete id = do
  affected ← exec (λ t. some (
    exists_where (has_id id) t.downstream_keys,
    record t { downstream_keys = delete_where (has_id id) t.downstream_keys },
  ))
  require_rows affected

abbrev pub lower_id : DownstreamKey → DownstreamKey → Bool
lower_id a b = ltb a.id b.id

-- `order by id asc`, each row scanned
unfoldable pub scan_all : List DownstreamKey → List DownstreamKey
scan_all [] = []
scan_all (row ∷ rows) = scan_downstream_key row ∷ scan_all rows

unfoldable pub list : M (List DownstreamKey)
unfolding scan_all
list = query (λ t. scan_all (sort lower_id t.downstream_keys))

pub record_usage : ℕ → UsageTokens → ℕ → M (Unit {0})
record_usage zero usage used_at = pure tt
record_usage (suc n) usage used_at =
    exec (λ t. some (tt, Logs.count_client usage used_at (suc n) t))

-- The new token of a row, under the constraint on the hashes.
unfoldable pub replace_token : ℕ → Text × Text × Text → Text → ℕ → Tables → Option (Bool × Tables)
replace_token id (token, prefix, hash) encrypted time t =
    if exists_where (has_id id) t.downstream_keys
      && exists_where (λ row. has_hash hash row && not (has_id id row)) t.downstream_keys
    then none
    else some (
        update_id id
          (λ row. record row {
            token_prefix = prefix;
            token_hash = hash;
            encrypted_token = encrypted;
            updated_at = time;
          })
          t)

module _ (crypto : Crypto) (secret : Text) where
  -- `Create` from the insertion on
  store_client : Text → Bool → Text × Text × Text → Text → M (DownstreamKey × Text)
  store_client name enabled token encrypted = do
    time ← now
    id ← exec (insert_client (new_client name token encrypted enabled time) token.2)
    driver_call
    created ← get id
    pure (created, token.0)

  create_named : Text → Bool → M (DownstreamKey × Text)
  unfolding store_client
  create_named name enabled = do
    token ← generate_downstream_token crypto
    encrypted ← encrypt_downstream_token crypto secret token.0
    store_client name enabled token encrypted

  pub create : DownstreamKey → M (DownstreamKey × Text)
  unfolding create_named
  create key =
      if is_empty (trim_space key.name)
      then fail (message name_required)
      else create_named (trim_space key.name) key.enabled

  unfoldable pub find_by_token : Text → M DownstreamKey
  unfolding or_client_not_found
  find_by_token token = do
    row ←
        query
          (λ t. find? (is_open (hash_downstream_token crypto (trim_space token))) t.downstream_keys)
    or_client_not_found row

  reveal_token : Text → M Text
  reveal_token encrypted =
      if is_empty (trim_space encrypted)
      then fail (
          message
            (codes "downstream key was created before encrypted storage; please regenerate it"))
      else lift (decrypt_downstream_token crypto secret encrypted)

  pub reveal : ℕ → M Text
  unfolding reveal_token
  reveal id = do key ← get id; reveal_token key.encrypted_token

  pub regenerate : ℕ → M (DownstreamKey × Text)
  unfolding require_rows
  regenerate id = do
    existing ← get id
    token ← generate_downstream_token crypto
    encrypted ← encrypt_downstream_token crypto secret token.0
    time ← now
    affected ← exec (replace_token id token encrypted time)
    require_rows affected
    refreshed ← get existing.id
    pure (refreshed, token.0)

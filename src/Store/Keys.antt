-- ===== src/Store/Keys.antt =====
-- The upstream keys: internal/store/keys.go. The stored times are read back as they were written:
-- `Format` and `Parse` are the time package's.
pub mod Deletion
pub mod Sound
mod Examples
pub mod Registry
pub mod Lookup
pub mod Registers
pub mod Refinement
use atomhub.Prelude.{
  ℕ, zero, suc, ◌+◌, Bool, true, false, List, [], ◌∷◌, ◌++◌, filter, Option, none, some, ltb, ◌==◌,
  if◌then◌else◌, find?,
}
use atomhub.Prelude.Sort.{sort}
use atomhub.Text.{trim_space}
use atomhub.Types.{UpstreamKey, KeyModel, KeyState, RequestLog, key_not_found}
use atomhub.Server.{
  Server, Tables, M, ◌>>=◌, ◌>>◌, pure, fail, driver_call, query, exec, transaction, now,
}
use atomhub.Store.Rows.{update_where, delete_where, exists_where}

abbrev pub has_id : ℕ → UpstreamKey → Bool
has_id id key = key.id == id

unfoldable pub or_key_not_found : Option UpstreamKey → M UpstreamKey
or_key_not_found none = fail key_not_found
or_key_not_found (some key) = pure key

unfoldable pub get : ℕ → M UpstreamKey
get key_id = do row ← query (λ t. find? (has_id key_id) t.upstream_keys); or_key_not_found row

-- the row of a key as `Create` and `Update` write it
abbrev pub stored : UpstreamKey → UpstreamKey
stored key = record key { name = trim_space key.name; base_url = trim_space key.base_url }

-- The new row has the next id.
unfoldable pub insert_key : UpstreamKey → ℕ → Tables → ℕ × Tables
insert_key key time t =
    let id = t.sequences.upstream_keys + 1 in
    (
      id,
      record t {
        upstream_keys =
            t.upstream_keys
            ++ record (stored key) { id = id; created_at = time; updated_at = time } ∷ [];
        sequences = record t.sequences { upstream_keys = id };
      },
    )

pub create : UpstreamKey → M UpstreamKey
create key = do time ← now; id ← exec (λ t. some (insert_key key time t)); driver_call; get id

-- `RowsAffected`, with the error for no row
pub require_rows : Bool → M (Unit {0})
require_rows affected = do driver_call; if affected then pure tt else fail key_not_found

unfoldable pub written : UpstreamKey → ℕ → UpstreamKey → UpstreamKey
written key time row = record row {
  name = trim_space key.name;
  provider = key.provider;
  base_url = trim_space key.base_url;
  api_key = key.api_key;
  enabled = key.enabled;
  updated_at = time;
}

-- an update of the rows with an id, and whether there were any
abbrev pub update_id : ℕ → (UpstreamKey → UpstreamKey) → Tables → Bool × Tables
update_id id change t = (
  exists_where (has_id id) t.upstream_keys,
  record t { upstream_keys = update_where (has_id id) change t.upstream_keys },
)

update_row : UpstreamKey → M UpstreamKey
unfolding require_rows
update_row key = do
  time ← now
  affected ← exec (λ t. some (update_id key.id (written key time) t))
  require_rows affected
  get key.id

pub update : UpstreamKey → M UpstreamKey
update key = if key.id == 0 then fail key_not_found else update_row key

pub set_enabled : ℕ → Bool → M (Unit {0})
set_enabled key_id enabled = do
  time ← now
  affected ←
      exec (λ t.
        some (update_id key_id (λ row. record row { enabled = enabled; updated_at = time }) t))
  require_rows affected

-- the four statements of `Delete`, in order
unfoldable pub delete_models : ℕ → Tables → Tables
delete_models k t = record t {
  key_models = delete_where (λ (r : KeyModel). r.key_id == k) t.key_models;
}

unfoldable pub delete_state : ℕ → Tables → Tables
delete_state k t = record t {
  key_state = delete_where (λ (r : KeyState). r.key_id == k) t.key_state;
}

unfoldable pub delete_logs : ℕ → Tables → Tables
delete_logs k t = record t {
  request_logs = delete_where (λ (r : RequestLog). r.key_id == k) t.request_logs;
}

unfoldable pub delete_row : ℕ → Tables → Tables
delete_row k t = record t { upstream_keys = delete_where (has_id k) t.upstream_keys }

delete_all : ℕ → M (Unit {0})
delete_all key_id = do
  exec (λ t. some (tt, delete_models key_id t))
  exec (λ t. some (tt, delete_state key_id t))
  exec (λ t. some (tt, delete_logs key_id t))
  affected ← exec (λ t. some (exists_where (has_id key_id) t.upstream_keys, delete_row key_id t))
  require_rows affected

pub delete : ℕ → M (Unit {0})
delete key_id = transaction (delete_all key_id)

abbrev pub lower_id : UpstreamKey → UpstreamKey → Bool
lower_id a b = ltb a.id b.id

-- `order by id asc`
unfoldable pub list : M (List UpstreamKey)
list = query (λ t. sort lower_id t.upstream_keys)

pub list_enabled : M (List UpstreamKey)
list_enabled = query (λ t. sort lower_id (filter (λ key. key.enabled) t.upstream_keys))

-- ===== src/Store/Keys/Registry.antt =====
-- What the store of internal/store/keys.go promises: a map from ids to keys, which its operations
-- look up and change, and which says nothing of rows, statements and their order.
use mathlib.Core.Option
use atomhub.Prelude.{ℕ, Bool, List, Option, none, some, ◌==◌, if◌then◌else◌, find?}
use atomhub.Types.{UpstreamKey}
use atomhub.Server.{Server, M, ◌>>=◌, ◌>>◌, pure}
use atomhub.Store.Keys
use atomhub.Store.Keys.{has_id, stored, written}

abbrev pub Registry : Type 0
Registry = ℕ → Option UpstreamKey

pub data Operation : Type 0 where
  look_up : ℕ → Operation
  add : UpstreamKey → Operation
  change : UpstreamKey → Operation
  enable : ℕ → Bool → Operation
  remove : ℕ → Operation

-- The operation of the store, with the key that it returns, if it returns one.
unfoldable pub perform : Operation → M (Option UpstreamKey)
perform (look_up k) = do key ← Keys.get k; pure (some key)
perform (add key) = do made ← Keys.create key; pure (some made)
perform (change key) = do made ← Keys.update key; pure (some made)
perform (enable k enabled) = do Keys.set_enabled k enabled; pure none
perform (remove k) = do Keys.delete k; pure none

abbrev pub put : ℕ → Option UpstreamKey → Registry → Registry
put k value registry j = if k == j then value else registry j

-- the key that `Create` makes
abbrev pub new_key : ℕ → ℕ → UpstreamKey → UpstreamKey
new_key id time key = record (stored key) { id = id; created_at = time; updated_at = time }

abbrev pub switched : Bool → ℕ → UpstreamKey → UpstreamKey
switched enabled time key = record key { enabled = enabled; updated_at = time }

-- a change of a key that is there; `none` where it is not
unfoldable pub on_key :
    ℕ
    → (UpstreamKey → Option UpstreamKey × Option UpstreamKey)
    → Registry
    → Option (Option UpstreamKey × Registry)
on_key k f registry = Option.map (λ key. ((f key).0, put k (f key).1 registry)) (registry k)

-- What an operation answers and leaves, at a time and with an id for a new key; `none` where there is
-- no such key.
unfoldable pub registered : Operation → ℕ → ℕ → Registry → Option (Option UpstreamKey × Registry)
registered (look_up k) time id registry = Option.map (λ key. (some key, registry)) (registry k)
registered (add key) time id registry =
    some (some (new_key id time key), put id (some (new_key id time key)) registry)
registered (change key) time id registry =
    on_key key.id (λ row. (some (written key time row), some (written key time row))) registry
registered (enable k enabled) time id registry =
    on_key k (λ row. (none, some (switched enabled time row))) registry
registered (remove k) time id registry = on_key k (λ row. (none, none)) registry

-- the map that the rows, and a state of the program, stand for
abbrev pub registry_of : List UpstreamKey → Registry
registry_of rows j = find? (has_id j) rows

abbrev pub view : Server → Registry
view s = registry_of s.tables.upstream_keys

-- ===== src/Catalog.antt =====
-- Which enabled keys support a model: internal/catalog/catalog.go. The map `keysByModel` is the
-- field `keys_by_model` of the server, an association list; a model that is not there has no keys.
pub mod Lookup
pub mod Sound
mod Examples
use atomhub.Prelude.{
  ℕ, Bool, true, false, ◌&&◌, ◌||◌, List, [], ◌∷◌, ◌++◌, map, if◌then◌else◌, ltb, ◌==◌, list_eq,
  elem, any,
}
use atomhub.Prelude.Sort.{sort}
use atomhub.Text.{Text}
use atomhub.Types.{UpstreamKey, KeyModel}
use atomhub.Server.{Server, M, ◌>>=◌, ◌>>◌, pure}
use atomhub.Store.Keys
use atomhub.Store.Models

abbrev pub Index : Type 0
Index = List (Text × List ℕ)

abbrev pub ids_for : Text → Index → List ℕ
ids_for model [] = []
ids_for model ((m, ids) ∷ rest) = if list_eq m model then ids else ids_for model rest

-- containsKeyID
abbrev pub contains_key_id : List ℕ → ℕ → Bool
contains_key_id ids key_id = elem key_id ids

-- the ids of a model with one more at the end, unless it is there
unfoldable pub append_id : List ℕ → ℕ → List ℕ
append_id ids key_id = if contains_key_id ids key_id then ids else ids ++ key_id ∷ []

unfoldable pub add_entry : Text → ℕ → Index → Index
unfolding append_id
add_entry model key_id [] = (model, append_id [] key_id) ∷ []
add_entry model key_id ((m, ids) ∷ rest) =
    if list_eq m model
    then (m, append_id ids key_id) ∷ rest
    else (m, ids) ∷ add_entry model key_id rest

-- the set `enabled`
abbrev pub is_enabled : List UpstreamKey → ℕ → Bool
is_enabled keys id = any (λ key. key.enabled && (key.id == id)) keys

-- the loop over the models
unfoldable pub collect : List UpstreamKey → Index → List KeyModel → Index
collect keys next [] = next
collect keys next (entry ∷ entries) =
    collect keys
      (if is_enabled keys entry.key_id then add_entry entry.model entry.key_id next else next)
      entries

unfoldable pub sort_ids : Text × List ℕ → Text × List ℕ
sort_ids (model, ids) = (model, sort ltb ids)

unfoldable pub index_of : List UpstreamKey → List KeyModel → Index
index_of keys models = map sort_ids (collect keys [] models)

pub rebuild : M (Unit {0})
rebuild = do
  keys ← Keys.list
  models ← Models.list_all
  λ s. pure tt (record s { keys_by_model = index_of keys models })

pub keys_for_model : Text → Server → List ℕ
keys_for_model model s = ids_for model s.keys_by_model

-- a copy of the map
pub snapshot : Server → Index
snapshot s = s.keys_by_model

-- ===== src/Admin/Keys.antt =====
-- The handlers for upstream keys in internal/app/handlers_admin.go. The decoded payload is an argument;
-- `Reply` is what a handler writes.
pub mod Removal
pub mod Sound
mod Examples
use atomhub.Prelude.{ℕ, Bool, true, false, List, [], ◌∷◌, Option, none, some, if◌then◌else◌}
use atomhub.Text.{Text, codes}
use atomhub.Types.{
  UpstreamKey, KeyState, KeyStatus, unset, healthy, disabled, Provider, Error, key_not_found,
  error_text, Result, ok, err,
}
use atomhub.Server.{Server, M, ignore}
use atomhub.Store.Keys
use atomhub.Store.State
use atomhub.Catalog.{rebuild}
use atomhub.Probe.{Providers, probe_key_by_id}
use atomhub.Admin.Payloads.{
  KeyPayload, KeyUpdatePayload, parse_id_path, to_upstream_key, merge_into,
}

-- adminKeyItem
pub record AdminKeyItem : Type 0 where
  pub id : ℕ
  pub provider : Provider
  pub label : Text
  pub status : KeyStatus
  pub base_url : Text
  pub enabled : Bool
  pub last_error : Text
  pub last_used_at : Option ℕ

or_healthy : KeyStatus → KeyStatus
or_healthy unset = healthy
or_healthy status = status

pub map_admin_key : UpstreamKey → KeyState → Option ℕ → AdminKeyItem
unfolding or_healthy
map_admin_key key state last_used_at = record {
  id = key.id;
  provider = key.provider;
  label = key.name;
  status = or_healthy (if key.enabled then state.status else disabled);
  base_url = key.base_url;
  enabled = key.enabled;
  last_error = state.last_error;
  last_used_at = last_used_at;
}

-- An error with its status, an item with its status, or 204.
pub data Reply : Type 0 where
  refused : ℕ → Text → Reply
  item : ℕ → AdminKeyItem → Reply
  no_content : Reply

-- a call whose error is answered with a status, and what follows it
pub attempt :
    {A : Type 0} → (Error → ℕ) → (A → Server → Reply × Server) → Result A × Server → Reply × Server
attempt status k (err e, s) = (refused (status e) (error_text e), s)
attempt status k (ok a, s) = k a s

server_error : Error → ℕ
server_error e = 500

bad_gateway : Error → ℕ
bad_gateway e = 502

not_found_or_server_error : Error → ℕ
not_found_or_server_error key_not_found = 404
not_found_or_server_error e = 500

abbrev invalid_payload : Reply
invalid_payload = refused 400 (codes "invalid payload")

abbrev invalid_id : Reply
invalid_id = refused 400 (codes "invalid id")

abbrev no_state : KeyState
no_state = record (State.new_state 0) { status = unset }

-- `state, _ := …`: the zero value on an error
pub or_zero : Result KeyState → KeyState
or_zero (ok state) = state
or_zero (err e) = no_state

with_state : ℕ → UpstreamKey → ℕ → Server → Reply × Server
unfolding or_zero
with_state status key id s =
    let (state, t) = State.get id s in (item status (map_admin_key key (or_zero state) none), t)

module _ (providers : Providers) where
  created : UpstreamKey → Server → Reply × Server
  unfolding attempt server_error
  created key s =
      attempt server_error
        (λ u t.
          let probed = (ignore (probe_key_by_id providers key.id) t).1 in
          (item 201 (map_admin_key key (State.new_state key.id) none), probed))
        (State.ensure key.id s)

  create_key : Result UpstreamKey → Server → Reply × Server
  unfolding attempt server_error created
  create_key (err e) s = (refused 400 (error_text e), s)
  create_key (ok key) s = attempt server_error created (Keys.create key s)

  pub handle_create_key : Result KeyPayload → Server → Reply × Server
  unfolding create_key
  handle_create_key (err e) s = (invalid_payload, s)
  handle_create_key (ok payload) s = create_key (to_upstream_key payload) s

  updated : UpstreamKey → Server → Reply × Server
  unfolding attempt server_error with_state
  updated key s =
      attempt server_error
        (λ u t.
          let refreshed =
            if key.enabled
            then (ignore (probe_key_by_id providers key.id) t).1
            else (ignore rebuild t).1 in
          with_state 200 key key.id refreshed)
        (State.ensure key.id s)

  update_key : Result UpstreamKey → Server → Reply × Server
  unfolding attempt not_found_or_server_error updated
  update_key (err e) s = (refused 400 (error_text e), s)
  update_key (ok key) s = attempt not_found_or_server_error updated (Keys.update key s)

  update_id : ℕ → Result KeyUpdatePayload → Server → Reply × Server
  unfolding attempt not_found_or_server_error update_key
  update_id id (err e) s = (invalid_payload, s)
  update_id id (ok payload) s =
      attempt not_found_or_server_error (λ existing t. update_key (merge_into payload existing) t)
        (Keys.get id s)

  pub handle_update_key : Text → Result KeyUpdatePayload → Server → Reply × Server
  unfolding update_id
  handle_update_key raw payload s = elim (parse_id_path raw) [
    | none ↦ (invalid_id, s)
    | some id ↦ update_id id payload s
  ]

  probe_id : ℕ → Server → Reply × Server
  unfolding attempt bad_gateway server_error with_state
  probe_id id s =
      attempt bad_gateway
        (λ u t. attempt server_error (λ key v. with_state 200 key id v) (Keys.get id t))
        (probe_key_by_id providers id s)

  pub handle_probe_key : Text → Server → Reply × Server
  unfolding probe_id
  handle_probe_key raw s = elim (parse_id_path raw) [
    | none ↦ (invalid_id, s)
    | some id ↦ probe_id id s
  ]

-- the deletion of a key and the rebuild that follows it
pub delete_id : ℕ → Server → Reply × Server
unfolding attempt not_found_or_server_error
delete_id id s =
    attempt not_found_or_server_error (λ u t. (no_content, (ignore rebuild t).1)) (Keys.delete id s)

pub handle_delete_key : Text → Server → Reply × Server
unfolding delete_id
handle_delete_key raw s = elim (parse_id_path raw) [
  | none ↦ (invalid_id, s)
  | some id ↦ delete_id id s
]

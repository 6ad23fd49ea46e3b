-- ===== src/Store/Sound/Statements.antt =====
-- Each statement of the stores keeps the tables as the schema says.
use mathlib.Core.Path.{subst}
use atomhub.Prelude.{
  ℕ, ◌+◌, ◌≡◌, refl, ◌∙◌, ap, inl, inr, Bool, true, false, ◌&&◌, List, some, none, if◌then◌else◌,
  Bool-cases, list_eq, ◌==◌,
}
use atomhub.Text.{Text}
use atomhub.Types.{UpstreamKey, KeyModel, KeyState, DownstreamKey, RequestLog}
use atomhub.Server.{AdminUser, Tables}
use atomhub.Store.Rows.{update_where, delete_where, exists_where}
use atomhub.Store.State.{of_key, new_state, ensure_row}
use atomhub.Store.Keys
use atomhub.Store.Models
use atomhub.Store.Logs
use atomhub.Store.Logs.{has_id}
use atomhub.Store.DownstreamKeys
use atomhub.Store.DownstreamKeys.{has_hash}
use atomhub.Store.DownstreamKeys.Renewal.{retoken, has_hash_elsewhere}
use atomhub.Store.Admin.{has_name, insert_admin}
use atomhub.Store.Sound.{Ascends, IsDistinct, same_pair, same_key, same_hash, same_name, IsSound}
use atomhub.Store.Sound.Tokens.{renewed-IsDistinct, update_where_none}
use atomhub.Store.Sound.Rules.{
  Ascends-append, Ascends-update_where, Ascends-delete_where, IsDistinct-append,
  IsDistinct-delete_where, IsDistinct-update_where,
}

-- A statement that went through met its constraint.
pub unless_taken {ℓ} :
    {A : Type ℓ} (taken : Bool) (x y : A)
    → (if taken then none else some x) ≡ some y
    → (taken ≡ false) × (x ≡ y)
unless_taken true x y h = cc
unless_taken false x y h = (refl, cc)

-- The tables with other rows in one of them, and with what is then to be shown.
module _ {t : Tables} (s : IsSound t) where
  with_keys :
      (rows : List UpstreamKey) (id : ℕ)
      → Ascends (λ (r : UpstreamKey). r.id) 0 rows id
      → IsSound
          (record t { upstream_keys = rows; sequences = record t.sequences { upstream_keys = id } })
  with_keys rows id h = record {
    keys = h;
    models = s.models;
    states = s.states;
    clients = s.clients;
    hashes = s.hashes;
    logs = s.logs;
    admins = s.admins;
  }

  with_models :
      (rows : List KeyModel) (id : ℕ)
      → IsDistinct same_pair rows
      → IsSound (record t { key_models = rows; sequences = record t.sequences { key_models = id } })
  with_models rows id h = record {
    keys = s.keys;
    models = h;
    states = s.states;
    clients = s.clients;
    hashes = s.hashes;
    logs = s.logs;
    admins = s.admins;
  }

  with_states :
      (rows : List KeyState) → IsDistinct same_key rows → IsSound (record t { key_state = rows })
  with_states rows h = record {
    keys = s.keys;
    models = s.models;
    states = h;
    clients = s.clients;
    hashes = s.hashes;
    logs = s.logs;
    admins = s.admins;
  }

  with_clients :
      (rows : List DownstreamKey) (id : ℕ)
      → Ascends (λ (r : DownstreamKey). r.id) 0 rows id
      → IsDistinct same_hash rows
      → IsSound (record t {
        downstream_keys = rows;
        sequences = record t.sequences { downstream_keys = id };
      })
  with_clients rows id a h = record {
    keys = s.keys;
    models = s.models;
    states = s.states;
    clients = a;
    hashes = h;
    logs = s.logs;
    admins = s.admins;
  }

  with_logs :
      (rows : List RequestLog) (id : ℕ)
      → Ascends (λ (r : RequestLog). r.id) 0 rows id
      → IsSound
          (record t { request_logs = rows; sequences = record t.sequences { request_logs = id } })
  with_logs rows id h = record {
    keys = s.keys;
    models = s.models;
    states = s.states;
    clients = s.clients;
    hashes = s.hashes;
    logs = h;
    admins = s.admins;
  }

  with_admins :
      (rows : List AdminUser) (id : ℕ)
      → IsDistinct same_name rows
      → IsSound
          (record t { admin_users = rows; sequences = record t.sequences { admin_users = id } })
  with_admins rows id h = record {
    keys = s.keys;
    models = s.models;
    states = s.states;
    clients = s.clients;
    hashes = s.hashes;
    logs = s.logs;
    admins = h;
  }

  pub ensure-IsSound : (k : ℕ) → IsSound (record t { key_state = ensure_row k t.key_state })
  unfolding ensure_row
  ensure-IsSound k = elim (Bool-cases (exists_where (of_key k) t.key_state)) [
    | inl e ↦ with_states _ (rw e s.states)
    | inr e ↦ with_states _ (rw e (IsDistinct-append same_key t.key_state (new_state k) e s.states))
  ]

  pub update_key-IsSound :
      (k : ℕ) (change : KeyState → KeyState)
      → ((r : KeyState) → (change r).key_id ≡ r.key_id)
      → IsSound (record t { key_state = update_where (of_key k) change t.key_state })
  update_key-IsSound k change keep = with_states _ (
      IsDistinct-update_where same_key (of_key k) change t.key_state
        (λ r x. ap (λ (j : ℕ). r.key_id == j) (keep x))
        (λ r x. ap (λ (j : ℕ). j == x.key_id) (keep r)) s.states)

  pub insert_key-IsSound : (key : UpstreamKey) (time : ℕ) → IsSound (Keys.insert_key key time t).1
  unfolding Keys.insert_key
  insert_key-IsSound key time =
      with_keys _ _ (Ascends-append _ 0 t.upstream_keys t.sequences.upstream_keys _ s.keys refl)

  pub update_key_row-IsSound :
      (id : ℕ) (change : UpstreamKey → UpstreamKey)
      → ((r : UpstreamKey) → (change r).id ≡ r.id)
      → IsSound (Keys.update_id id change t).1
  update_key_row-IsSound id change keep =
      with_keys _ t.sequences.upstream_keys
        (Ascends-update_where _ _ change 0 t.upstream_keys _ keep s.keys)

  pub delete_row-IsSound : (k : ℕ) → IsSound (Keys.delete_row k t)
  unfolding Keys.delete_row
  delete_row-IsSound k =
      with_keys _ t.sequences.upstream_keys (Ascends-delete_where _ _ 0 t.upstream_keys _ s.keys)

  pub delete_state-IsSound : (k : ℕ) → IsSound (Keys.delete_state k t)
  unfolding Keys.delete_state
  delete_state-IsSound k = with_states _ (IsDistinct-delete_where same_key _ t.key_state s.states)

  pub delete_logs-IsSound : (k : ℕ) → IsSound (Keys.delete_logs k t)
  unfolding Keys.delete_logs
  delete_logs-IsSound k =
      with_logs _ t.sequences.request_logs (Ascends-delete_where _ _ 0 t.request_logs _ s.logs)

  delete_models-IsSound :
      (k : ℕ)
      → IsSound
          (record t { key_models = delete_where (λ (r : KeyModel). r.key_id == k) t.key_models })
  delete_models-IsSound k =
      with_models _ t.sequences.key_models
        (IsDistinct-delete_where same_pair _ t.key_models s.models)

  pub delete_models_of_key-IsSound : (k : ℕ) → IsSound (Keys.delete_models k t)
  unfolding Keys.delete_models
  delete_models_of_key-IsSound = delete_models-IsSound

  pub replaced_models-IsSound : (k : ℕ) → IsSound (Models.delete_models k t)
  unfolding Models.delete_models
  replaced_models-IsSound = delete_models-IsSound

  pub insert_model-IsSound :
      (k time : ℕ) (model : Text) (u : Unit {0}) (next : Tables)
      → Models.insert_model k time model t ≡ some (u, next)
      → IsSound next
  unfolding Models.insert_model
  insert_model-IsSound k time model u next e =
      let (new, made) =
        unless_taken (exists_where (Models.is_model k model) t.key_models) _ (u, next) e in
      subst IsSound (ap (λ (p : Unit {0} × Tables). p.1) made) (
        with_models _ _ (
          IsDistinct-append same_pair t.key_models
            (Models.new_model (t.sequences.key_models + 1) k time model) new s.models))

  pub insert_log-IsSound :
      (entry : Logs.Entry) (time : ℕ) → IsSound (Logs.insert_log entry time t).1
  unfolding Logs.insert_log
  insert_log-IsSound entry time =
      with_logs _ _ (Ascends-append _ 0 t.request_logs t.sequences.request_logs _ s.logs refl)

  pub update_client-IsSound :
      (id : ℕ) (change : DownstreamKey → DownstreamKey)
      → ((r : DownstreamKey) → (change r).id ≡ r.id)
      → ((r : DownstreamKey) → (change r).token_hash ≡ r.token_hash)
      → IsSound (DownstreamKeys.update_id id change t).1
  update_client-IsSound id change keep same =
      with_clients _ t.sequences.downstream_keys
        (Ascends-update_where _ _ change 0 t.downstream_keys _ keep s.clients)
        (IsDistinct-update_where same_hash (has_id id) change t.downstream_keys
          (λ r x. ap (list_eq r.token_hash) (same x))
          (λ r x. ap (λ (h : Text). list_eq h x.token_hash) (same r)) s.hashes)

  -- `Create`: the row of an id has that id and the hash
  pub insert_client-IsSound :
      (row : ℕ → DownstreamKey) (hash : Text) (id : ℕ) (next : Tables)
      → ((j : ℕ) → (row j).id ≡ j)
      → ((j : ℕ) → (row j).token_hash ≡ hash)
      → DownstreamKeys.insert_client row hash t ≡ some (id, next)
      → IsSound next
  unfolding DownstreamKeys.insert_client
  insert_client-IsSound row hash id next its_id its_hash e =
      let new_id = t.sequences.downstream_keys + 1 in
      let (new, made) =
        unless_taken (exists_where (has_hash hash) t.downstream_keys) _ (id, next) e in
      subst IsSound (ap (λ (p : ℕ × Tables). p.1) made) (
        with_clients _ _
          (Ascends-append _ 0 t.downstream_keys t.sequences.downstream_keys (row new_id) s.clients
            (its_id new_id))
          (IsDistinct-append same_hash t.downstream_keys (row new_id)
            (ap (λ (h : Text). exists_where (has_hash h) t.downstream_keys) (its_hash new_id) ∙ new)
            s.hashes))

  -- `Regenerate`
  pub replace_token-IsSound :
      (id : ℕ) (token : Text × Text × Text) (encrypted : Text) (time : ℕ) (b : Bool) (next : Tables)
      → DownstreamKeys.replace_token id token encrypted time t ≡ some (b, next)
      → IsSound next
  unfolding DownstreamKeys.replace_token
  replace_token-IsSound id token encrypted time b next e =
      let there = exists_where (has_id id) t.downstream_keys in
      let taken = exists_where (has_hash_elsewhere token.2 id) t.downstream_keys in
      let change = retoken token encrypted time in
      let (new, made) = unless_taken (there && taken) _ (b, next) e in
      subst IsSound (ap (λ (p : Bool × Tables). p.1) made) (
        with_clients _ t.sequences.downstream_keys
          (Ascends-update_where _ _ change 0 t.downstream_keys _ (λ r. refl) s.clients)
          (elim (Bool-cases there) [
            | inl here ↦
                renewed-IsDistinct id token.2 change (λ r. refl) 0 t.downstream_keys
                  t.sequences.downstream_keys s.clients (rw here at new) s.hashes
            | inr missing ↦ rw (update_where_none id change t.downstream_keys missing) s.hashes
          ]))

  pub delete_client-IsSound :
      (id : ℕ) → IsSound (record t { downstream_keys = delete_where (has_id id) t.downstream_keys })
  delete_client-IsSound id =
      with_clients _ t.sequences.downstream_keys
        (Ascends-delete_where _ _ 0 t.downstream_keys _ s.clients)
        (IsDistinct-delete_where same_hash _ t.downstream_keys s.hashes)

  pub insert_admin-IsSound : (username hash : Text) → IsSound (insert_admin username hash t)
  unfolding insert_admin
  insert_admin-IsSound username hash =
      elim (Bool-cases (exists_where (has_name username) t.admin_users)) [
        | inl e ↦ rw e s
        | inr e ↦ rw e (with_admins _ _ (IsDistinct-append same_name t.admin_users _ e s.admins))
      ]

-- ===== src/Admin/Keys/Sound.antt =====
-- The handlers for upstream keys keep the tables sound.
use atomhub.Prelude.{ℕ, Bool, true, false, Option-cases, inl, inr, if◌then◌else◌}
use atomhub.Text.{Text}
use atomhub.Types.{UpstreamKey, Error, Result, ok, err}
use atomhub.Server.{Server}
use atomhub.Store.Keys
use atomhub.Store.Keys.Sound as KeysSound
use atomhub.Store.State
use atomhub.Store.State.Sound as StateSound
use atomhub.Store.Sound.{IsSound}
use atomhub.Catalog.Sound.{rebuild-Maintains}
use atomhub.Probe.{Providers, probe_key_by_id}
use atomhub.Probe.Sound.{probe_key_by_id-Maintains}
use atomhub.Admin.Payloads.{
  KeyPayload, KeyUpdatePayload, parse_id_path, to_upstream_key, merge_into,
}
use atomhub.Admin.Keys.{
  Reply, attempt, with_state, created, create_key, handle_create_key, updated, update_key,
  update_id, handle_update_key, probe_id, handle_probe_key, delete_id, handle_delete_key,
}

abbrev Kept : Server → Type 0
Kept s = IsSound s.tables

attempt-Kept :
    {A : Type 0} (status : Error → ℕ) (k : A → Server → Reply × Server) (r : Result A × Server)
    → ((a : A) (t : Server) → Kept t → Kept (k a t).1)
    → Kept r.1
    → Kept (attempt status k r).1
unfolding attempt
attempt-Kept status k (err e, s) f h = h
attempt-Kept status k (ok a, s) f h = f a s h

with_state-Kept :
    (status : ℕ) (key : UpstreamKey) (id : ℕ) (s : Server)
    → Kept s
    → Kept (with_state status key id s).1
unfolding with_state
with_state-Kept status key id s h = (StateSound.get-Maintains id).at s h

refreshed-Kept : (b : Bool) (s t : Server) → Kept s → Kept t → Kept (if b then s else t)
refreshed-Kept true s t h k = h
refreshed-Kept false s t h k = k

module _ (providers : Providers) where
  created-Kept : (key : UpstreamKey) (s : Server) → Kept s → Kept (created providers key s).1
  unfolding created
  created-Kept key s h =
      attempt-Kept _ _ (State.ensure key.id s)
        (λ u t k. (probe_key_by_id-Maintains providers key.id).at t k)
        ((StateSound.ensure-Maintains key.id).at s h)

  create_key-Kept :
      (r : Result UpstreamKey) (s : Server) → Kept s → Kept (create_key providers r s).1
  unfolding create_key
  create_key-Kept (err e) s h = h
  create_key-Kept (ok key) s h =
      attempt-Kept _ _ (Keys.create key s) (λ c t k. created-Kept c t k)
        ((KeysSound.create-Maintains key).at s h)

  pub handle_create_key-Kept :
      (r : Result KeyPayload) (s : Server)
      → IsSound s.tables
      → IsSound (handle_create_key providers r s).1.tables
  unfolding handle_create_key
  handle_create_key-Kept (err e) s h = h
  handle_create_key-Kept (ok payload) s h = create_key-Kept (to_upstream_key payload) s h

  updated-Kept : (key : UpstreamKey) (s : Server) → Kept s → Kept (updated providers key s).1
  unfolding updated
  updated-Kept key s h =
      attempt-Kept _ _ (State.ensure key.id s)
        (λ u t k. with_state-Kept 200 key key.id _ (
          refreshed-Kept key.enabled _ _ ((probe_key_by_id-Maintains providers key.id).at t k)
            (rebuild-Maintains.at t k)))
        ((StateSound.ensure-Maintains key.id).at s h)

  update_key-Kept :
      (r : Result UpstreamKey) (s : Server) → Kept s → Kept (update_key providers r s).1
  unfolding update_key
  update_key-Kept (err e) s h = h
  update_key-Kept (ok key) s h =
      attempt-Kept _ _ (Keys.update key s) (λ c t k. updated-Kept c t k)
        ((KeysSound.update-Maintains key).at s h)

  update_id-Kept :
      (id : ℕ) (r : Result KeyUpdatePayload) (s : Server)
      → Kept s
      → Kept (update_id providers id r s).1
  unfolding update_id
  update_id-Kept id (err e) s h = h
  update_id-Kept id (ok payload) s h =
      attempt-Kept _ _ (Keys.get id s)
        (λ existing t k. update_key-Kept (merge_into payload existing) t k)
        ((KeysSound.get-Maintains id).at s h)

  pub handle_update_key-Kept :
      (raw : Text) (r : Result KeyUpdatePayload) (s : Server)
      → IsSound s.tables
      → IsSound (handle_update_key providers raw r s).1.tables
  unfolding handle_update_key
  handle_update_key-Kept raw r s h = elim (Option-cases (parse_id_path raw)) [
    | inl e ↦ rw (e, handle_update_key) h
    | inr (id, e) ↦ rw (e, handle_update_key) (update_id-Kept id r s h)
  ]

  probe_id-Kept : (id : ℕ) (s : Server) → Kept s → Kept (probe_id providers id s).1
  unfolding probe_id
  probe_id-Kept id s h =
      attempt-Kept _ _ (probe_key_by_id providers id s)
        (λ u t k.
          attempt-Kept _ _ (Keys.get id t) (λ key v l. with_state-Kept 200 key id v l)
            ((KeysSound.get-Maintains id).at t k))
        ((probe_key_by_id-Maintains providers id).at s h)

  pub handle_probe_key-Kept :
      (raw : Text) (s : Server)
      → IsSound s.tables
      → IsSound (handle_probe_key providers raw s).1.tables
  unfolding handle_probe_key
  handle_probe_key-Kept raw s h = elim (Option-cases (parse_id_path raw)) [
    | inl e ↦ rw (e, handle_probe_key) h
    | inr (id, e) ↦ rw (e, handle_probe_key) (probe_id-Kept id s h)
  ]

delete_id-Kept : (id : ℕ) (s : Server) → Kept s → Kept (delete_id id s).1
unfolding delete_id
delete_id-Kept id s h =
    attempt-Kept _ _ (Keys.delete id s) (λ u t k. rebuild-Maintains.at t k)
      ((KeysSound.delete-Maintains id).at s h)

pub handle_delete_key-Kept :
    (raw : Text) (s : Server) → IsSound s.tables → IsSound (handle_delete_key raw s).1.tables
unfolding handle_delete_key
handle_delete_key-Kept raw s h = elim (Option-cases (parse_id_path raw)) [
  | inl e ↦ rw (e, handle_delete_key) h
  | inr (id, e) ↦ rw (e, handle_delete_key) (delete_id-Kept id s h)
]

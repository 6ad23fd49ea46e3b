-- ===== src/Admin/Clients/Sound.antt =====
-- The handlers for the gateway's clients keep the tables sound.
use atomhub.Prelude.{ℕ, Option-cases, inl, inr}
use atomhub.Text.{Text}
use atomhub.Types.{DownstreamKey, Result, ok, err}
use atomhub.Server.{Server}
use atomhub.Auth.{Crypto}
use atomhub.Store.DownstreamKeys
use atomhub.Store.DownstreamKeys.Sound as ClientsSound
use atomhub.Store.Sound.{IsSound}
use atomhub.Admin.Answers.{Handler}
use atomhub.Admin.Answers.Sound.{or_refuse-Kept}
use atomhub.Admin.Payloads.{
  ClientPayload, ClientUpdatePayload, parse_id_path, to_downstream_key, merge_into_client,
}
use atomhub.Admin.Clients.{
  ClientReply, refused, with_id, handle_list_downstream_keys, update_client, update_id,
  handle_update_downstream_key, delete_id, handle_delete_downstream_key, create_client,
  handle_create_downstream_key, reveal_id, handle_reveal_downstream_key, regenerate_id,
  handle_regenerate_downstream_key,
}

abbrev Kept : Server → Type 0
Kept s = IsSound s.tables

with_id-Kept :
    (raw : Text) (k : ℕ → Handler ClientReply) (s : Server)
    → ((id : ℕ) → Kept (k id s).1)
    → Kept s
    → Kept (with_id raw k s).1
unfolding with_id
with_id-Kept raw k s f h = elim (Option-cases (parse_id_path raw)) [
  | inl e ↦ rw (e, with_id) h
  | inr (id, e) ↦ rw (e, with_id) (f id)
]

pub handle_list_downstream_keys-Kept :
    (s : Server) → IsSound s.tables → IsSound (handle_list_downstream_keys s).1.tables
unfolding handle_list_downstream_keys
handle_list_downstream_keys-Kept s h =
    or_refuse-Kept refused _ _ (DownstreamKeys.list s) (λ keys t k. k)
      (ClientsSound.list-Maintains.at s h)

update_client-Kept : (r : Result DownstreamKey) (s : Server) → Kept s → Kept (update_client r s).1
unfolding update_client
update_client-Kept (err e) s h = h
update_client-Kept (ok key) s h =
    or_refuse-Kept refused _ _ (DownstreamKeys.update key s) (λ updated t k. k)
      ((ClientsSound.update-Maintains key).at s h)

update_id-Kept :
    (r : Result ClientUpdatePayload) (id : ℕ) (s : Server) → Kept s → Kept (update_id r id s).1
unfolding update_id
update_id-Kept (err e) id s h = h
update_id-Kept (ok payload) id s h =
    or_refuse-Kept refused _ _ (DownstreamKeys.get id s)
      (λ existing t k. update_client-Kept (merge_into_client payload existing) t k)
      ((ClientsSound.get-Maintains id).at s h)

pub handle_update_downstream_key-Kept :
    (raw : Text) (r : Result ClientUpdatePayload) (s : Server)
    → IsSound s.tables
    → IsSound (handle_update_downstream_key raw r s).1.tables
unfolding handle_update_downstream_key
handle_update_downstream_key-Kept raw r s h =
    with_id-Kept raw (update_id r) s (λ id. update_id-Kept r id s h) h

delete_id-Kept : (id : ℕ) (s : Server) → Kept s → Kept (delete_id id s).1
unfolding delete_id
delete_id-Kept id s h =
    or_refuse-Kept refused _ _ (DownstreamKeys.delete id s) (λ u t k. k)
      ((ClientsSound.delete-Maintains id).at s h)

pub handle_delete_downstream_key-Kept :
    (raw : Text) (s : Server)
    → IsSound s.tables
    → IsSound (handle_delete_downstream_key raw s).1.tables
unfolding handle_delete_downstream_key
handle_delete_downstream_key-Kept raw s h =
    with_id-Kept raw delete_id s (λ id. delete_id-Kept id s h) h

module _ (crypto : Crypto) (secret : Text) where
  create_client-Kept :
      (r : Result DownstreamKey) (s : Server) → Kept s → Kept (create_client crypto secret r s).1
  unfolding create_client
  create_client-Kept (err e) s h = h
  create_client-Kept (ok key) s h =
      or_refuse-Kept refused _ _ (DownstreamKeys.create crypto secret key s) (λ made t k. k)
        ((ClientsSound.create-Maintains crypto secret key).at s h)

  pub handle_create_downstream_key-Kept :
      (r : Result ClientPayload) (s : Server)
      → IsSound s.tables
      → IsSound (handle_create_downstream_key crypto secret r s).1.tables
  unfolding handle_create_downstream_key
  handle_create_downstream_key-Kept (err e) s h = h
  handle_create_downstream_key-Kept (ok payload) s h =
      create_client-Kept (to_downstream_key payload) s h

  reveal_id-Kept : (id : ℕ) (s : Server) → Kept s → Kept (reveal_id crypto secret id s).1
  unfolding reveal_id
  reveal_id-Kept id s h =
      or_refuse-Kept refused _ _ (DownstreamKeys.reveal crypto secret id s) (λ shown t k. k)
        ((ClientsSound.reveal-Maintains crypto secret id).at s h)

  pub handle_reveal_downstream_key-Kept :
      (raw : Text) (s : Server)
      → IsSound s.tables
      → IsSound (handle_reveal_downstream_key crypto secret raw s).1.tables
  unfolding handle_reveal_downstream_key
  handle_reveal_downstream_key-Kept raw s h =
      with_id-Kept raw (reveal_id crypto secret) s (λ id. reveal_id-Kept id s h) h

  regenerate_id-Kept : (id : ℕ) (s : Server) → Kept s → Kept (regenerate_id crypto secret id s).1
  unfolding regenerate_id
  regenerate_id-Kept id s h =
      or_refuse-Kept refused _ _ (DownstreamKeys.regenerate crypto secret id s) (λ made t k. k)
        ((ClientsSound.regenerate-Maintains crypto secret id).at s h)

  pub handle_regenerate_downstream_key-Kept :
      (raw : Text) (s : Server)
      → IsSound s.tables
      → IsSound (handle_regenerate_downstream_key crypto secret raw s).1.tables
  unfolding handle_regenerate_downstream_key
  handle_regenerate_downstream_key-Kept raw s h =
      with_id-Kept raw (regenerate_id crypto secret) s (λ id. regenerate_id-Kept id s h) h

-- ===== src/Admin/Clients.antt =====
-- The handlers for the gateway's clients in internal/app/handlers_admin.go. The decoded payload is an
-- argument; `ClientReply` is what a handler writes.
pub mod Sound
use atomhub.Prelude.{
  ℕ, Bool, true, false, not, ◌||◌, List, [], ◌∷◌, ◌++◌, Option, none, some, if◌then◌else◌,
}
use atomhub.Prelude.Int.{ℤ}
use atomhub.Text.{Text, codes, is_empty, trim_space, strip_prefix}
use atomhub.Types.{DownstreamKey, Error, downstream_key_not_found, error_text, Result, ok, err}
use atomhub.Server.{Server}
use atomhub.Auth.{Crypto}
use atomhub.Store.DownstreamKeys
use atomhub.Admin.Answers.{Handler, or_refuse, always_500, client_status}
use atomhub.Admin.Payloads.{
  ClientPayload, ClientUpdatePayload, parse_id_path, to_downstream_key, merge_into_client,
}

-- adminDownstreamKeyItem
pub record AdminClientItem : Type 0 where
  pub id : ℕ
  pub name : Text
  pub token_prefix : Text
  pub masked_token : Text
  pub can_reveal : Bool
  pub enabled : Bool
  pub last_used_at : Option ℕ
  pub request_count : ℕ
  pub prompt_tokens : ℤ
  pub completion_tokens : ℤ
  pub total_tokens : ℤ
  pub created_at : ℕ
  pub updated_at : ℕ

-- ten bullets
abbrev bullets : Text
bullets = codes "••••••••••"

unfoldable pub mask_downstream_token : Text → Text
mask_downstream_token prefix =
    if is_empty (trim_space prefix) then bullets else trim_space prefix ++ bullets

unfoldable pub map_admin_downstream_key : DownstreamKey → AdminClientItem
unfolding mask_downstream_token
map_admin_downstream_key key = record {
  id = key.id;
  name = key.name;
  token_prefix = key.token_prefix;
  masked_token = mask_downstream_token key.token_prefix;
  can_reveal = not (is_empty (trim_space key.encrypted_token));
  enabled = key.enabled;
  last_used_at = key.last_used_at;
  request_count = key.request_count;
  prompt_tokens = key.prompt_tokens;
  completion_tokens = key.completion_tokens;
  total_tokens = key.total_tokens;
  created_at = key.created_at;
  updated_at = key.updated_at;
}

-- An error with its status, the clients, one of them, a new one with its token (201), the token of
-- one, or 204.
pub data ClientReply : Type 0 where
  refused : ℕ → Text → ClientReply
  items : List AdminClientItem → ClientReply
  item : AdminClientItem → ClientReply
  created : AdminClientItem → Text → ClientReply
  token : ℕ → Text → ClientReply
  no_content : ClientReply

abbrev invalid_payload : ClientReply
invalid_payload = refused 400 (codes "invalid payload")

-- what follows parseIDPath
unfoldable pub with_id : Text → (ℕ → Handler ClientReply) → Handler ClientReply
with_id raw k s = elim (parse_id_path raw) [
  | none ↦ (refused 400 (codes "invalid id"), s)
  | some id ↦ k id s
]

map_items : List DownstreamKey → List AdminClientItem
map_items [] = []
map_items (key ∷ keys) = map_admin_downstream_key key ∷ map_items keys

pub handle_list_downstream_keys : Handler ClientReply
unfolding map_items
handle_list_downstream_keys s =
    or_refuse refused always_500 (λ keys t. (items (map_items keys), t)) (DownstreamKeys.list s)

update_client : Result DownstreamKey → Handler ClientReply
update_client (err e) s = (refused 400 (error_text e), s)
update_client (ok key) s =
    or_refuse refused client_status (λ updated t. (item (map_admin_downstream_key updated), t))
      (DownstreamKeys.update key s)

update_id : Result ClientUpdatePayload → ℕ → Handler ClientReply
unfolding update_client
update_id (err e) id s = (invalid_payload, s)
update_id (ok payload) id s =
    or_refuse refused client_status
      (λ existing t. update_client (merge_into_client payload existing) t) (DownstreamKeys.get id s)

pub handle_update_downstream_key : Text → Result ClientUpdatePayload → Handler ClientReply
unfolding update_id
handle_update_downstream_key raw payload s = with_id raw (update_id payload) s

delete_id : ℕ → Handler ClientReply
delete_id id s =
    or_refuse refused client_status (λ u t. (no_content, t)) (DownstreamKeys.delete id s)

pub handle_delete_downstream_key : Text → Handler ClientReply
unfolding delete_id
handle_delete_downstream_key raw s = with_id raw delete_id s

-- strings.Contains
unfoldable pub contains_text : Text → Text → Bool
contains_text part [] = is_empty part
contains_text part (c ∷ s) =
    let later = contains_text part s in
    elim (strip_prefix part (c ∷ s)) [ none ↦ later | some rest ↦ true ]

-- 409 for a client from before its token was kept
reveal_status : Error → ℕ
reveal_status downstream_key_not_found = 404
reveal_status e =
    if contains_text (codes "created before encrypted storage") (error_text e) then 409 else 500

module _ (crypto : Crypto) (secret : Text) where
  create_client : Result DownstreamKey → Handler ClientReply
  create_client (err e) s = (refused 400 (error_text e), s)
  create_client (ok key) s =
      or_refuse refused always_500 (λ made t. (created (map_admin_downstream_key made.0) made.1, t))
        (DownstreamKeys.create crypto secret key s)

  pub handle_create_downstream_key : Result ClientPayload → Handler ClientReply
  unfolding create_client
  handle_create_downstream_key (err e) s = (invalid_payload, s)
  handle_create_downstream_key (ok payload) s = create_client (to_downstream_key payload) s

  reveal_id : ℕ → Handler ClientReply
  unfolding reveal_status
  reveal_id id s =
      or_refuse refused reveal_status (λ shown t. (token id shown, t))
        (DownstreamKeys.reveal crypto secret id s)

  pub handle_reveal_downstream_key : Text → Handler ClientReply
  unfolding reveal_id
  handle_reveal_downstream_key raw s = with_id raw reveal_id s

  regenerate_id : ℕ → Handler ClientReply
  regenerate_id id s =
      or_refuse refused client_status (λ made t. (token id made.1, t))
        (DownstreamKeys.regenerate crypto secret id s)

  pub handle_regenerate_downstream_key : Text → Handler ClientReply
  unfolding regenerate_id
  handle_regenerate_downstream_key raw s = with_id raw regenerate_id s

-- ===== src/Admin/Payloads.antt =====
-- What an admin sends, and how it becomes or changes a key or a client: the payloads of
-- internal/app/api_types.go with their methods in internal/app/handlers_admin.go. A field that is a
-- pointer there is an option here.
pub mod Ready
use atomhub.Prelude.{
  ℕ, suc, Bool, true, false, List, [], ◌∷◌, Option, none, some, if◌then◌else◌, list_eq,
}
use atomhub.Prelude.Int.{ℤ, pos}
use atomhub.Text.{Text, codes, is_empty, trim_space, to_lower}
use atomhub.Text.Decimal.{parse_int}
use atomhub.Types.{
  UpstreamKey, DownstreamKey, Provider, openai, anthropic, gemini, other, message, Result, ok, err,
}

pub record KeyPayload : Type 0 where
  pub name : Text
  pub provider : Text
  pub base_url : Text
  pub api_key : Text
  pub enabled : Option Bool

pub record KeyUpdatePayload : Type 0 where
  pub name : Option Text
  pub provider : Option Text
  pub base_url : Option Text
  pub api_key : Option Text
  pub enabled : Option Bool

pub record ClientPayload : Type 0 where
  pub name : Text
  pub enabled : Option Bool

pub record ClientUpdatePayload : Type 0 where
  pub name : Option Text
  pub enabled : Option Bool

-- parseIDPath, without its answer
unfoldable pub positive : Option ℤ → Option ℕ
positive (some (pos (suc n))) = some (suc n)
positive o = none

unfoldable pub parse_id_path : Text → Option ℕ
unfolding positive
parse_id_path raw = positive (parse_int (trim_space raw))

provider_of : Text → Result Provider
provider_of t =
    if list_eq t (codes "openai")
    then ok openai
    else if list_eq t (codes "anthropic")
    then ok anthropic
    else if list_eq t (codes "gemini")
    then ok gemini
    else err (message (codes "provider must be openai, anthropic, or gemini"))

unfoldable pub normalize_provider : Text → Result Provider
unfolding provider_of
normalize_provider raw = provider_of (trim_space (to_lower raw))

unfoldable pub default_base_url : Provider → Text
default_base_url openai = codes "https://api.openai.com"
default_base_url anthropic = codes "https://api.anthropic.com"
default_base_url gemini = codes "https://generativelanguage.googleapis.com"
default_base_url (other p) = []

-- a text that may not be blank, trimmed
unfoldable pub non_blank : Text → Text → Result Text
non_blank what raw = if is_empty (trim_space raw) then err (message what) else ok (trim_space raw)

abbrev pub name_required : Text
name_required = codes "name is required"

abbrev pub api_key_required : Text
api_key_required = codes "api_key is required"

-- the errors of two steps, in order
abbrev pub then_with : {A B : Type 0} → Result A → (A → Result B) → Result B
then_with (ok a) f = f a
then_with (err e) f = err e

abbrev pub or_else : {A : Type 0} → Option A → A → A
or_else none a = a
or_else (some b) a = b

unfoldable pub base_url_or_default : Text → Provider → Text
base_url_or_default raw provider =
    if is_empty (trim_space raw) then default_base_url provider else trim_space raw

abbrev new_key : Provider → Text → Text → Text → Bool → UpstreamKey
new_key provider name api_key base_url enabled = record {
  id = 0;
  name = name;
  provider = provider;
  base_url = base_url;
  api_key = api_key;
  enabled = enabled;
  created_at = 0;
  updated_at = 0;
}

pub to_upstream_key : KeyPayload → Result UpstreamKey
to_upstream_key p = then_with (normalize_provider p.provider) λ provider.
    then_with (non_blank name_required p.name) λ name.
      then_with (non_blank api_key_required p.api_key) λ api_key. ok (
        new_key provider name api_key (base_url_or_default p.base_url provider)
          (or_else p.enabled true))

-- `if p.Name != nil { … }` and the like: the value as it is, or the one sent
unfoldable pub merge_text : Text → Option Text → Text → Result Text
merge_text what none current = ok current
merge_text what (some raw) current = non_blank what raw

unfoldable pub merge_provider : Option Text → Provider → Result Provider
merge_provider none current = ok current
merge_provider (some raw) current = normalize_provider raw

unfoldable pub merge_base_url : Option Text → Text → Text
merge_base_url none current = current
merge_base_url (some raw) current = trim_space raw

-- the last step: a blank url becomes the provider's
unfoldable pub fill_base_url : Text → Provider → Text
fill_base_url url provider = if is_empty (trim_space url) then default_base_url provider else url

pub merge_into : KeyUpdatePayload → UpstreamKey → Result UpstreamKey
merge_into p existing = then_with (merge_text name_required p.name existing.name) λ name.
    then_with (merge_provider p.provider existing.provider) λ provider.
      then_with (merge_text api_key_required p.api_key existing.api_key) λ api_key.
        ok (record existing {
          name = name;
          provider = provider;
          base_url = fill_base_url (merge_base_url p.base_url existing.base_url) provider;
          api_key = api_key;
          enabled = or_else p.enabled existing.enabled;
        })

pub merge_into_client : ClientUpdatePayload → DownstreamKey → Result DownstreamKey
merge_into_client p existing =
    then_with (merge_text name_required p.name existing.name)
      λ name. ok (record existing { name = name; enabled = or_else p.enabled existing.enabled })

abbrev new_client : Text → Bool → DownstreamKey
new_client name enabled = record {
  id = 0;
  name = name;
  token_prefix = [];
  token_hash = [];
  encrypted_token = [];
  enabled = enabled;
  last_used_at = none;
  request_count = 0;
  prompt_tokens = pos 0;
  completion_tokens = pos 0;
  total_tokens = pos 0;
  created_at = 0;
  updated_at = 0;
}

pub to_downstream_key : ClientPayload → Result DownstreamKey
to_downstream_key p =
    then_with (non_blank name_required p.name) λ name. ok (new_client name (or_else p.enabled true))

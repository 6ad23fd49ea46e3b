-- ===== src/Providers.antt =====
-- The providers' lists of models: internal/providers. The HTTP client, url parsing and JSON are
-- parameters. A body is a list of characters, of which `clampBody` keeps 300; the program counts bytes,
-- which are the same for ASCII.
pub mod Models
mod Examples
use atomhub.Prelude.{
  ℕ, Bool, true, false, List, [], ◌∷◌, ◌++◌, Option, none, some, map, length, take, ltb, leb, ◌||◌,
  if◌then◌else◌,
}
use atomhub.Text.{Text, codes, is_empty, trim_space, strip_prefix}
use atomhub.Text.Decimal.{decimal}
use atomhub.Text.Unique.{unique_ordered}
use atomhub.Types.{UpstreamKey, Error, message, Result, ok, err}

-- An answer: the status, the body, and the names in the body as JSON.
pub record Answer : Type 0 where
  pub status : ℕ
  pub body : Text
  pub names : Result (List Text)

-- `join_path` is `url.Parse` with `path.Join`, `with_key` sets the query's key, `fetch` takes the
-- endpoint and the headers.
pub record Client : Type 0 where
  pub join_path : Text → Text → Result Text
  pub with_key : Text → Text → Result Text
  pub fetch : Text → List (Text × Text) → Result Answer

clamp_body : Text → Text
clamp_body body =
    let trimmed = trim_space body in if leb (length trimmed) 300 then trimmed else take 300 trimmed

-- HTTPStatusError
status_error : ℕ → Text → Error
status_error status body =
    if is_empty body
    then message (codes "upstream returned status " ++ decimal status)
    else message (codes "upstream returned status " ++ (decimal status ++ (codes ": " ++ body)))

parsed_answer : Answer → Result (List Text)
unfolding clamp_body status_error
parsed_answer a =
    if ltb a.status 200 || leb 300 a.status
    then err (status_error a.status (clamp_body a.body))
    else a.names

or_default : Text → Text → Text
or_default raw fallback = if is_empty (trim_space raw) then fallback else trim_space raw

abbrev pub bind : {A B : Type 0} → Result A → (A → Result B) → Result B
bind (ok a) f = f a
bind (err e) f = err e

unfoldable pub normalize_model_name : Text → Text
normalize_model_name name = elim (strip_prefix (codes "models/") (trim_space name)) [
  | none ↦ trim_space name
  | some rest ↦ rest
]

module _ (client : Client) where
  -- GetJSON
  get_json : Text → List (Text × Text) → Result (List Text)
  unfolding parsed_answer
  get_json endpoint headers = bind (client.fetch endpoint headers) parsed_answer

  join_url : Text → Text → Result Text
  join_url base suffix = client.join_path (trim_space base) suffix

  pub openai_names : UpstreamKey → Result (List Text)
  unfolding get_json join_url or_default
  openai_names key =
      bind
        (join_url (or_default key.base_url (codes "https://api.openai.com")) (codes "/v1/models"))
        λ endpoint. get_json endpoint ((codes "Authorization", codes "Bearer " ++ key.api_key) ∷ [])

  pub anthropic_names : UpstreamKey → Result (List Text)
  unfolding get_json join_url or_default
  anthropic_names key =
      bind
        (join_url (or_default key.base_url (codes "https://api.anthropic.com"))
          (codes "/v1/models"))
        λ endpoint.
          get_json endpoint (
            (codes "x-api-key", key.api_key) ∷ (codes "anthropic-version", codes "2023-06-01") ∷ [])

  pub gemini_names : UpstreamKey → Result (List Text)
  unfolding get_json join_url or_default
  gemini_names key =
      bind
        (join_url (or_default key.base_url (codes "https://generativelanguage.googleapis.com"))
          (codes "/v1beta/models"))
        λ endpoint. bind (client.with_key endpoint key.api_key) λ url. get_json url []

  pub list_openai : UpstreamKey → Result (List Text)
  unfolding openai_names
  list_openai key = bind (openai_names key) λ names. ok (unique_ordered names)

  pub list_anthropic : UpstreamKey → Result (List Text)
  unfolding anthropic_names
  list_anthropic key = bind (anthropic_names key) λ names. ok (unique_ordered names)

  pub list_gemini : UpstreamKey → Result (List Text)
  unfolding gemini_names
  list_gemini key =
      bind (gemini_names key) λ names. ok (unique_ordered (map normalize_model_name names))

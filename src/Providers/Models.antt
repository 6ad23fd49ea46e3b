-- ===== src/Providers/Models.antt =====
-- What the lists of models of internal/providers are, in terms of the upstream's answer.
use atomhub.Prelude.{
  ◌≤◌, ◌<◌, ◌≡◌, ◌≢◌, refl, ap, inl, inr, ◌⊎◌, not, ◌&&◌, List, [], ◌∷◌, ◌++◌, map, All, arith, ltb,
  leb, if◌then◌else◌, Bool-cases, Option-cases,
}
use atomhub.Text.{Text, codes, is_empty, trim_space, strip_prefix}
use atomhub.Text.Trim.{trim_space_idem}
use atomhub.Text.Prefix.{strip_prefix-some, strip_prefix-none}
use atomhub.Text.Unique.{
  IsUnique, IsClean, contains, contains_trimmed, unique_ordered, contains-unique_ordered,
  unique_ordered-IsUnique, unique_ordered-IsClean,
}
use atomhub.Types.{UpstreamKey, Error, Result, ok, err}
use atomhub.Providers.{
  Answer, Client, bind, parsed_answer, or_default, normalize_model_name, get_json, join_url,
  openai_names, anthropic_names, gemini_names, list_openai, list_anthropic, list_gemini,
}

-- The list has each of the names that is not blank, trimmed, once, and nothing else.
pub record IsListOf (names models : List Text) : Type 0 where
  pub unique : IsUnique models
  pub clean : All IsClean models
  pub complete : (m : Text) → contains m models ≡ (not (is_empty m) && contains_trimmed m names)

-- What a request for the names comes to: the names of an answer of 2xx that can be read, or an error.
pub data Asked (client : Client) (url : Text) (headers : List (Text × Text))
    : Result (List Text) → Type 0 where
  answered :
      {names : List Text} (a : Answer)
      → client.fetch url headers ≡ ok a
      → 200 ≤ a.status
      → a.status < 300
      → a.names ≡ ok names
      → Asked client url headers (ok names)
  unreachable : {e : Error} → client.fetch url headers ≡ err e → Asked client url headers (err e)
  turned_down :
      {e : Error} (a : Answer)
      → client.fetch url headers ≡ ok a
      → (a.status < 200) ⊎ (300 ≤ a.status)
      → Asked client url headers (err e)
  unreadable :
      {e : Error} (a : Answer)
      → client.fetch url headers ≡ ok a
      → 200 ≤ a.status
      → a.status < 300
      → a.names ≡ err e
      → Asked client url headers (err e)

-- The same, by way of an address that may not be one.
pub data Via (address : Result Text) (P : Text → Result (List Text) → Type 0)
    : Result (List Text) → Type 0 where
  no_address : {e : Error} → address ≡ err e → Via address P (err e)
  at_address : {r : Result (List Text)} (url : Text) → address ≡ ok url → P url r → Via address P r

-- A list of models comes from names with `Q`; an error is the one of the names.
pub data Lists (Q : Result (List Text) → Type 0) (R : List Text → List Text → Type 0)
    : Result (List Text) → Type 0 where
  listed :
      {models : List Text} (names bare : List Text)
      → Q (ok names)
      → R names bare
      → IsListOf bare models
      → Lists Q R (ok models)
  failed : {e : Error} → Q (err e) → Lists Q R (err e)

-- The name without `models/` in front, where it has that.
abbrev pub IsBare : Text → Text → Type 0
IsBare name bare =
    (trim_space name ≡ codes "models/" ++ bare)
    ⊎ ((bare ≡ trim_space name) × ((rest : Text) → trim_space name ≢ codes "models/" ++ rest))

pub data AreBare : List Text → List Text → Type 0 where
  none_left : AreBare [] []
  one_more :
      {name bare : Text} {names bares : List Text}
      → IsBare name bare
      → AreBare names bares
      → AreBare (name ∷ names) (bare ∷ bares)

-- the key's base url, or the provider's own
abbrev pub base_of : UpstreamKey → Text → Text
base_of key fallback =
    if is_empty (trim_space key.base_url) then fallback else trim_space key.base_url

unique_ordered-IsListOf : (names : List Text) → IsListOf names (unique_ordered names)
unique_ordered-IsListOf names = record {
  unique = unique_ordered-IsUnique names;
  clean = unique_ordered-IsClean names;
  complete = contains-unique_ordered names;
}

unique_ordered-Lists :
    {Q : Result (List Text) → Type 0} (R : List Text → List Text → Type 0)
    (f : List Text → List Text)
    → ((names : List Text) → R names (f names))
    → (r : Result (List Text)) → Q r
    → Lists Q R (bind r λ names. ok (unique_ordered (f names)))
unique_ordered-Lists R f h (ok names) q =
    listed names (f names) q (h names) (unique_ordered-IsListOf (f names))
unique_ordered-Lists R f h (err e) q = failed q

normalize-IsBare : (name : Text) → IsBare name (normalize_model_name name)
unfolding normalize_model_name
normalize-IsBare name = elim (Option-cases (strip_prefix (codes "models/") (trim_space name))) [
  | inl e ↦
      rw (e, normalize_model_name)
        (inr (refl, λ rest. strip_prefix-none (codes "models/") (trim_space name) rest e))
  | inr (rest, e) ↦
      rw (e, normalize_model_name)
        (inl (strip_prefix-some (codes "models/") (trim_space name) rest e))
]

map-AreBare : (names : List Text) → AreBare names (map normalize_model_name names)
map-AreBare [] = none_left
map-AreBare (name ∷ names) = one_more (normalize-IsBare name) (map-AreBare names)

or_default-base_of :
    (key : UpstreamKey) (fallback : Text)
    → trim_space fallback ≡ fallback
    → trim_space (or_default key.base_url fallback) ≡ base_of key fallback
unfolding or_default
or_default-base_of key fallback h = elim (Bool-cases (is_empty (trim_space key.base_url))) [
  | inl e ↦ rw e h
  | inr e ↦ rw e (trim_space_idem key.base_url)
]

via :
    (address : Result Text) (P : Text → Result (List Text) → Type 0) (f : Text → Result (List Text))
    → ((url : Text) → P url (f url))
    → Via address P (bind address f)
via (ok url) P f h = at_address url refl (h url)
via (err e) P f h = no_address refl

module _ (client : Client) where
  parsed-Asked :
      (url : Text) (headers : List (Text × Text)) (r : Result Answer)
      → client.fetch url headers ≡ r
      → Asked client url headers (bind r parsed_answer)
  unfolding parsed_answer
  parsed-Asked url headers (err e) h = unreachable h
  parsed-Asked url headers (ok a) h = elim (Bool-cases (ltb a.status 200)) [
    | inl l ↦ rw l (turned_down a h (inl (ground (arith, l))))
    | inr l ↦ elim (Bool-cases (leb 300 a.status)) [
      | inl k ↦ rw (l, k) (turned_down a h (inr (ground (arith, k))))
      | inr k ↦ rw (l, k) (named a h (ground (arith, l)) (ground (arith, k)) a.names refl)
    ]
  ]
    where
      named :
          (a : Answer)
          → client.fetch url headers ≡ ok a
          → 200 ≤ a.status
          → a.status < 300
          → (r : Result (List Text)) → a.names ≡ r
          → Asked client url headers r
      named a h low high (ok names) e = answered a h low high e
      named a h low high (err x) e = unreadable a h low high e

  get_json-Asked :
      (url : Text) (headers : List (Text × Text))
      → Asked client url headers (get_json client url headers)
  unfolding get_json
  get_json-Asked url headers = parsed-Asked url headers (client.fetch url headers) refl

  joined :
      (key : UpstreamKey) (fallback suffix : Text)
      → trim_space fallback ≡ fallback
      → join_url client (or_default key.base_url fallback) suffix
        ≡ client.join_path (base_of key fallback) suffix
  unfolding join_url
  joined key fallback suffix h =
      ap (λ (base : Text). client.join_path base suffix) (or_default-base_of key fallback h)

  -- the names that one request to the provider's path comes to
  abbrev pub AtPath :
      UpstreamKey → Text → Text → (Text → Result (List Text) → Type 0) → Result (List Text) → Type 0
  AtPath key fallback suffix = Via (client.join_path (base_of key fallback) suffix)

  abbrev pub OfOpenai : UpstreamKey → Result (List Text) → Type 0
  OfOpenai key =
      AtPath key (codes "https://api.openai.com") (codes "/v1/models")
        (λ url. Asked client url ((codes "Authorization", codes "Bearer " ++ key.api_key) ∷ []))

  abbrev pub OfAnthropic : UpstreamKey → Result (List Text) → Type 0
  OfAnthropic key = AtPath key (codes "https://api.anthropic.com") (codes "/v1/models") (λ url.
      Asked client url
        ((codes "x-api-key", key.api_key) ∷ (codes "anthropic-version", codes "2023-06-01") ∷ []))

  abbrev pub OfGemini : UpstreamKey → Result (List Text) → Type 0
  OfGemini key =
      AtPath key (codes "https://generativelanguage.googleapis.com") (codes "/v1beta/models")
        (λ url. Via (client.with_key url key.api_key) (λ full. Asked client full []))

  openai_names-OfOpenai : (key : UpstreamKey) → OfOpenai key (openai_names client key)
  unfolding openai_names trim_space
  openai_names-OfOpenai key =
      rw (joined key (codes "https://api.openai.com") (codes "/v1/models") refl)
        (via _ _ _ (λ url. get_json-Asked url _))

  anthropic_names-OfAnthropic : (key : UpstreamKey) → OfAnthropic key (anthropic_names client key)
  unfolding anthropic_names trim_space
  anthropic_names-OfAnthropic key =
      rw (joined key (codes "https://api.anthropic.com") (codes "/v1/models") refl)
        (via _ _ _ (λ url. get_json-Asked url _))

  gemini_names-OfGemini : (key : UpstreamKey) → OfGemini key (gemini_names client key)
  unfolding gemini_names trim_space
  gemini_names-OfGemini key =
      rw
        (joined key (codes "https://generativelanguage.googleapis.com") (codes "/v1beta/models")
          refl)
        (via _ _ _ (λ url. via _ _ _ (λ full. get_json-Asked full _)))

  -- Each provider's `ListModels` asks the address that the key's base url, or else the provider's own,
  -- makes with the provider's path, with the key in the headers or, for Gemini, in the address. Of an
  -- answer of 2xx it returns the names, Gemini's without their `models/`, trimmed, without the blank
  -- ones and each once; it fails only where there is no address, the request fails, the status is
  -- another one or the answer cannot be read, and always there.
  pub list_models-Lists :
      (key : UpstreamKey)
      → Lists (OfOpenai key) ◌≡◌ (list_openai client key)
        × Lists (OfAnthropic key) ◌≡◌ (list_anthropic client key)
        × Lists (OfGemini key) AreBare (list_gemini client key)
  unfolding list_openai list_anthropic list_gemini
  list_models-Lists key = (
    unique_ordered-Lists ◌≡◌ (λ names. names) (λ names. refl) (openai_names client key)
        (openai_names-OfOpenai key),
    unique_ordered-Lists ◌≡◌ (λ names. names) (λ names. refl) (anthropic_names client key)
        (anthropic_names-OfAnthropic key),
    unique_ordered-Lists AreBare (map normalize_model_name) map-AreBare (gemini_names client key)
        (gemini_names-OfGemini key),
  )

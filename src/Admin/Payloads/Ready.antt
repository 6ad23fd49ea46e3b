-- ===== src/Admin/Payloads/Ready.antt =====
-- The keys that the admin API makes and changes can be called: `toUpstreamKey` and `mergeInto` of
-- internal/app/handlers_admin.go.
use atomhub.Prelude.{◌≡◌, refl, false, Option, none, some, Bool-cases, inl, inr, ◌⊎◌, list_eq}
use atomhub.Text.{Text, codes, is_empty, trim_space, to_lower}
use atomhub.Text.Trim.{trim_space_idem}
use atomhub.Text.Unique.{IsClean}
use atomhub.Types.{UpstreamKey, Provider, openai, anthropic, gemini, Result, ok, err}
use atomhub.Admin.Payloads.{
  KeyPayload, KeyUpdatePayload, provider_of, normalize_provider, default_base_url, non_blank,
  then_with, base_url_or_default, to_upstream_key, merge_text, merge_provider, merge_base_url,
  fill_base_url, merge_into, name_required, api_key_required,
}

abbrev pub IsKnown : Provider → Type 0
IsKnown p = (p ≡ openai) ⊎ (p ≡ anthropic) ⊎ (p ≡ gemini)

-- The name and the key are trimmed and not empty, the provider is one of the three, and there is a url.
pub record IsReady (key : UpstreamKey) : Type 0 where
  pub name : IsClean key.name
  pub api_key : IsClean key.api_key
  pub provider : IsKnown key.provider
  pub base_url : is_empty (trim_space key.base_url) ≡ false

-- What holds of a value, if there is one.
abbrev pub OnSuccess : {A : Type 0} → (A → Type 0) → Result A → Type 0
OnSuccess P (ok a) = P a
OnSuccess P (err e) = Unit {0}

then-OnSuccess :
    {A B : Type 0} (P : A → Type 0) (Q : B → Type 0) (r : Result A) (f : A → Result B)
    → OnSuccess P r
    → ((a : A) → P a → OnSuccess Q (f a))
    → OnSuccess Q (then_with r f)
then-OnSuccess P Q (ok a) f h k = k a h
then-OnSuccess P Q (err e) f h k = tt

non_blank-IsClean : (what raw : Text) → OnSuccess IsClean (non_blank what raw)
unfolding non_blank
non_blank-IsClean what raw = elim (Bool-cases (is_empty (trim_space raw))) [
  | inl e ↦ rw e tt
  | inr e ↦ rw e (trim_space_idem raw, e)
]

normalize_provider-IsKnown : (raw : Text) → OnSuccess IsKnown (normalize_provider raw)
unfolding normalize_provider provider_of
normalize_provider-IsKnown raw =
    elim (Bool-cases (list_eq (trim_space (to_lower raw)) (codes "openai"))) [
      | inl e ↦ rw e (inl refl)
      | inr e ↦ elim (Bool-cases (list_eq (trim_space (to_lower raw)) (codes "anthropic"))) [
        | inl f ↦ rw (e, f) (inr (inl refl))
        | inr f ↦ elim (Bool-cases (list_eq (trim_space (to_lower raw)) (codes "gemini"))) [
          | inl g ↦ rw (e, f, g) (inr (inr refl))
          | inr g ↦ rw (e, f, g) tt
        ]
      ]
    ]

default_has_url : (p : Provider) → IsKnown p → is_empty (trim_space (default_base_url p)) ≡ false
unfolding default_base_url trim_space
default_has_url p (inl e) = rw e refl
default_has_url p (inr (inl e)) = rw e refl
default_has_url p (inr (inr e)) = rw e refl

fill_has_url :
    (url : Text) (p : Provider) → IsKnown p → is_empty (trim_space (fill_base_url url p)) ≡ false
unfolding fill_base_url
fill_has_url url p k = elim (Bool-cases (is_empty (trim_space url))) [
  | inl e ↦ rw e (default_has_url p k)
  | inr e ↦ rw e e
]

base_has_url :
    (raw : Text) (p : Provider)
    → IsKnown p
    → is_empty (trim_space (base_url_or_default raw p)) ≡ false
unfolding base_url_or_default
base_has_url raw p k = elim (Bool-cases (is_empty (trim_space raw))) [
  | inl e ↦ rw e (default_has_url p k)
  | inr e ↦ rw (e, trim_space_idem raw) e
]

-- A key that is made from a payload is ready to be called: it has a trimmed name and api key, a known
-- provider and a url.
pub to_upstream_key-IsReady : (p : KeyPayload) → OnSuccess IsReady (to_upstream_key p)
unfolding to_upstream_key
to_upstream_key-IsReady p =
    then-OnSuccess IsKnown IsReady (normalize_provider p.provider) _
      (normalize_provider-IsKnown p.provider)
      λ provider known.
        then-OnSuccess IsClean IsReady (non_blank name_required p.name) _
          (non_blank-IsClean _ p.name)
          λ name c.
            then-OnSuccess IsClean IsReady (non_blank api_key_required p.api_key) _
              (non_blank-IsClean _ p.api_key)
              λ api_key d. record {
                name = c;
                api_key = d;
                provider = known;
                base_url = base_has_url p.base_url provider known;
              }

merge_text-IsClean :
    (what : Text) (o : Option Text) (current : Text)
    → IsClean current
    → OnSuccess IsClean (merge_text what o current)
unfolding merge_text
merge_text-IsClean what none current c = c
merge_text-IsClean what (some raw) current c = non_blank-IsClean what raw

merge_provider-IsKnown :
    (o : Option Text) (current : Provider)
    → IsKnown current
    → OnSuccess IsKnown (merge_provider o current)
unfolding merge_provider
merge_provider-IsKnown none current k = k
merge_provider-IsKnown (some raw) current k = normalize_provider-IsKnown raw

-- A ready key that an update changes is ready still, and keeps its id.
pub merge_into-IsReady :
    (p : KeyUpdatePayload) (existing : UpstreamKey)
    → IsReady existing
    → OnSuccess (λ key. IsReady key × (key.id ≡ existing.id)) (merge_into p existing)
unfolding merge_into
merge_into-IsReady p existing ready =
    then-OnSuccess IsClean Kept (merge_text name_required p.name existing.name) _
      (merge_text-IsClean _ p.name existing.name ready.name)
      λ name c.
        then-OnSuccess IsKnown Kept (merge_provider p.provider existing.provider) _
          (merge_provider-IsKnown p.provider existing.provider ready.provider)
          λ provider known.
            then-OnSuccess IsClean Kept (merge_text api_key_required p.api_key existing.api_key) _
              (merge_text-IsClean _ p.api_key existing.api_key ready.api_key)
              λ api_key d. (
                record {
                  name = c;
                  api_key = d;
                  provider = known;
                  base_url =
                      fill_has_url (merge_base_url p.base_url existing.base_url) provider known;
                },
                refl,
              )
  where
    Kept : UpstreamKey → Type 0
    Kept key = IsReady key × (key.id ≡ existing.id)

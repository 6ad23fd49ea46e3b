-- ===== src/Gateway/Stream/Meaning.antt =====
-- What a line of an upstream's stream of server-sent events means, apart from the code that reads it in
-- internal/app/streaming.go.
use mathlib.Core.Path.{subst}
use atomhub.Prelude.{
  ap₂, ℕ, ◌≡◌, ◌≢◌, refl, ◌∙◌, sym, ap, inl, inr, Bool, true, false, ◌&&◌, ◌||◌, List, [], ◌∷◌,
  ◌++◌, Option, none, some, if◌then◌else◌, ◌==◌, ==_iff, list_eq, list_eq_iff, Bool-cases, All,
}
use atomhub.Text.{
  Text, codes, is_empty, is_space, trim_space, trim_left, trim_right, strip_prefix, has_prefix,
}
use atomhub.Text.Prefix.{strip_prefix-some, strip_prefix-none, strip_prefix-append}
use atomhub.Gateway.Messages.{is_blank}
use atomhub.Gateway.Stream.Relay.{payloads}
use atomhub.Gateway.Stream.{
  Line, skip, done, payload, trim_returns, of_payload, classify, done_marker,
}

abbrev pub ends_in_return : Text → Bool
ends_in_return [] = false
ends_in_return (c ∷ []) = c == 13
ends_in_return (c ∷ d ∷ s) = ends_in_return (d ∷ s)

-- The line is the text without the carriage returns at its end.
abbrev pub IsLine : Text → Text → Type 0
IsLine text line =
    (returns : Text) × (text ≡ line ++ returns)
    × All (λ (c : ℕ). c ≡ 13) returns
    × (ends_in_return line ≡ false)

-- A field `data` with a payload, that is not the end marker.
abbrev pub IsEvent : Text → Text → Type 0
IsEvent text p =
    (rest : Text) × IsLine text (codes "data:" ++ rest)
    × (trim_space rest ≡ p)
    × (is_empty p ≡ false)
    × (p ≢ codes "[DONE]")

abbrev pub IsEnd : Text → Type 0
IsEnd text =
    (rest : Text) × IsLine text (codes "data:" ++ rest) × (trim_space rest ≡ codes "[DONE]")

-- Anything else: a comment, another field, a blank line or a field `data` without a payload.
abbrev pub IsNoise : Text → Type 0
IsNoise text =
    (line : Text) × IsLine text line
    × ((rest : Text) → line ≡ codes "data:" ++ rest → is_empty (trim_space rest) ≡ true)

-- The payloads of the events, in order, up to the first end marker.
pub data Reads : List Text → List Text → Type 0 where
  no_lines : Reads [] []
  end : {text : Text} {lines : List Text} → IsEnd text → Reads (text ∷ lines) []
  event :
      {text p : Text} {lines ps : List Text}
      → IsEvent text p
      → Reads lines ps
      → Reads (text ∷ lines) (p ∷ ps)
  noise :
      {text : Text} {lines ps : List Text} → IsNoise text → Reads lines ps → Reads (text ∷ lines) ps

trim_returns-IsLine : (text : Text) → IsLine text (trim_returns text)
unfolding trim_returns
trim_returns-IsLine [] = ([], refl, tt, refl)
trim_returns-IsLine (c ∷ s) = extend (trim_returns s) (trim_returns-IsLine s)
  where
    extend :
        (r : Text) → IsLine s r → IsLine (c ∷ s) (if is_empty r && (c == 13) then [] else c ∷ r)
    extend [] (returns, e, all, last) = elim (Bool-cases (c == 13)) [
      | inl k ↦ rw k (c ∷ returns, ap (◌∷◌ c) e, ((==_iff c 13).0 k, all), refl)
      | inr k ↦ rw k (returns, ap (◌∷◌ c) e, all, k)
    ]
    extend (d ∷ r) (returns, e, all, last) = (returns, ap (◌∷◌ c) e, all, last)

trim_right-cons : (c : ℕ) (s : Text) → is_space c ≡ false → is_empty (trim_right (c ∷ s)) ≡ false
unfolding trim_right
trim_right-cons c s h = elim (Bool-cases (is_empty (trim_right s))) [
  | inl e ↦ rw (e, h) refl
  | inr e ↦ rw e refl
]

not_blank : (rest : Text) → is_blank (codes "data:" ++ rest) ≡ false
unfolding trim_space trim_left is_space
not_blank rest = trim_right-cons 100 (codes "ata:" ++ rest) refl

not_comment : (rest : Text) → has_prefix (codes ":") (codes "data:" ++ rest) ≡ false
unfolding strip_prefix
not_comment rest = refl

-- what the code takes a line for
abbrev Means : Text → Line → Type 0
Means text skip = IsNoise text
Means text done = IsEnd text
Means text (payload p) = IsEvent text p

of_payload-Means :
    (text rest : Text)
    → IsLine text (codes "data:" ++ rest)
    → Means text (of_payload (trim_space rest))
unfolding of_payload
of_payload-Means text rest l = elim (Bool-cases (is_empty (trim_space rest))) [
  | inl e ↦ rw e (
    codes "data:" ++ rest,
    l,
    λ other same.
        let it : some rest ≡ some other =
          sym (strip_prefix-append (codes "data:") rest)
          ∙ ap (strip_prefix (codes "data:")) same
          ∙ strip_prefix-append (codes "data:") other in
        let equal : rest ≡ other = cc in sym (ap (λ (t : Text). is_empty (trim_space t)) equal) ∙ e,
  )
  | inr e ↦ elim (Bool-cases (list_eq (trim_space rest) done_marker)) [
    | inl k ↦ rw (e, k) (rest, l, (list_eq_iff (trim_space rest) done_marker).0 k)
    | inr k ↦
        rw (e, k)
          (
            rest,
            l,
            refl,
            e,
            λ same.
                let never : false ≡ true =
                  sym k ∙ (list_eq_iff (trim_space rest) done_marker).1 same in
                cc,
          )
  ]
]

classify_line :
    (text line : Text)
    → IsLine text line
    → (o : Option Text) → strip_prefix (codes "data:") line ≡ o
    → Means text (elim o [ none ↦ skip | some rest ↦ of_payload (trim_space rest) ])
classify_line text line l none e =
    (line, l, λ rest same. elim (strip_prefix-none (codes "data:") line rest e same) [ ])
classify_line text line l (some rest) e =
    of_payload-Means text rest
      (subst (IsLine text) (strip_prefix-some (codes "data:") line rest e) l)

classify-Means : (text : Text) → Means text (classify text)
unfolding classify
classify-Means text =
    let line = trim_returns text in
    let l = trim_returns-IsLine text in
    elim (Bool-cases (is_blank line || has_prefix (codes ":") line)) [
      | inl e ↦ rw e (
        line,
        l,
        λ rest same.
            let never : false ≡ true =
              sym (
                ap₂ (λ a b. a || b) (ap is_blank same ∙ not_blank rest)
                  (ap (has_prefix (codes ":")) same ∙ not_comment rest))
              ∙ e in
            cc,
      )
      | inr e ↦ rw e (classify_line text line l (strip_prefix (codes "data:") line) refl)
    ]

line_cons :
    (text : Text) (lines ps : List Text) (l : Line)
    → classify text ≡ l
    → Means text l
    → Reads lines ps
    → Reads (text ∷ lines) (elim l [ skip ↦ ps | done ↦ [] | payload p ↦ p ∷ ps ])
line_cons text lines ps skip e m r = noise m r
line_cons text lines ps done e m r = end m
line_cons text lines ps (payload p) e m r = event m r

-- what the loop takes for payloads are the payloads
pub payloads-Reads : (lines : List Text) → Reads lines (payloads lines)
payloads-Reads [] = no_lines
payloads-Reads (text ∷ lines) =
    line_cons text lines (payloads lines) (classify text) refl (classify-Means text)
      (payloads-Reads lines)

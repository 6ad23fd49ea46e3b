-- ===== src/Text/Split.antt =====
-- strings.Split with a separator of one character.
use atomhub.Prelude.{
  ℕ, ◌≡◌, refl, true, false, List, [], ◌∷◌, ◌++◌, arith, ◌==◌, if◌then◌else◌, elem, Bool-cases, inl,
  inr,
}
use atomhub.Text.{Text}

-- one more character in front of the first part
abbrev pub prepend : ℕ → List Text → List Text
prepend c [] = (c ∷ []) ∷ []
prepend c (part ∷ parts) = (c ∷ part) ∷ parts

unfoldable pub split : ℕ → Text → List Text
split sep [] = [] ∷ []
split sep (c ∷ s) = let rest = split sep s in if c == sep then [] ∷ rest else prepend c rest

-- A text without the separator is one part.
pub split_whole : (sep : ℕ) (s : Text) → elem sep s ≡ false → split sep s ≡ s ∷ []
unfolding split
split_whole sep [] h = refl
split_whole sep (c ∷ s) h = ground (arith, split_whole sep s)

pub split-append :
    (sep : ℕ) (s t : Text) → elem sep s ≡ false → split sep (s ++ sep ∷ t) ≡ s ∷ split sep t
unfolding split
split-append sep [] t h = ground arith
split-append sep (c ∷ s) t h = ground (arith, split-append sep s t)

-- A text with the separator has two parts at least, and what follows has one more.
pub split_parts :
    (sep : ℕ) (s : Text) → (part : Text) × (parts : List Text) × (split sep s ≡ part ∷ parts)
unfolding split
split_parts sep [] = ([], [], refl)
split_parts sep (c ∷ s) =
    let (part, parts, e) = split_parts sep s in
    elim (Bool-cases (c == sep)) [
      | inl h ↦ ([], part ∷ parts, rw (e, h) refl)
      | inr h ↦ (c ∷ part, parts, rw (e, h) refl)
    ]

pub split_more :
    (sep : ℕ) (s t : Text)
    → elem sep s ≡ true
    → (a b c : Text) × (parts : List Text) × (split sep (s ++ sep ∷ t) ≡ a ∷ b ∷ c ∷ parts)
unfolding split
split_more sep [] t h = cc
split_more sep (x ∷ s) t h = elim (Bool-cases (x == sep)) [
  | inl e ↦ elim (Bool-cases (elem sep s)) [
    | inl more ↦
        let (a, b, c, parts, is) = split_more sep s t more in ([], a, b, c ∷ parts, rw (e, is) refl)
    | inr last ↦
        let (part, parts, is) = split_parts sep t in
        ([], s, part, parts, rw (e, split-append sep s t last, is) refl)
  ]
  | inr e ↦
      let (a, b, c, parts, is) = split_more sep s t (ground arith) in
      (x ∷ a, b, c, parts, rw (e, is) refl)
]

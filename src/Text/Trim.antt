-- ===== src/Text/Trim.antt =====
-- TrimSpace, as the rest of the development uses it.
use atomhub.Prelude.{All, ◌≡◌, refl, inl, inr, ap, ◌∙◌, false, [], ◌∷◌, arith, Bool-cases}
use atomhub.Text.{Text, is_space, trim_left, trim_right, trim_space}

trim_right_idem : (s : Text) → trim_right (trim_right s) ≡ trim_right s
unfolding trim_right
trim_right_idem [] = refl
trim_right_idem (c ∷ s) = ground (arith, trim_right_idem s)

-- The text is empty or begins with no space.
abbrev StartsClean : Text → Type 0
StartsClean [] = Unit {0}
StartsClean (c ∷ s) = is_space c ≡ false

trim_left-StartsClean : (s : Text) → StartsClean (trim_left s)
unfolding trim_left
trim_left-StartsClean [] = tt
trim_left-StartsClean (c ∷ s) = elim (Bool-cases (is_space c)) [
  | inl e ↦ rw (e, trim_left) (trim_left-StartsClean s)
  | inr e ↦ rw (e, trim_left) e
]

trim_left_clean : (s : Text) → StartsClean s → trim_left s ≡ s
unfolding trim_left
trim_left_clean [] h = refl
trim_left_clean (c ∷ s) h = rw h

trim_right-StartsClean : (s : Text) → StartsClean s → StartsClean (trim_right s)
unfolding trim_right
trim_right-StartsClean [] h = tt
trim_right-StartsClean (c ∷ s) h = ground (arith, h)

pub trim_space_idem : (s : Text) → trim_space (trim_space s) ≡ trim_space s
unfolding trim_space
trim_space_idem s =
    ap trim_right (trim_left_clean _ (trim_right-StartsClean _ (trim_left-StartsClean s)))
    ∙ trim_right_idem (trim_left s)

trim_right_spaceless : (s : Text) → All (λ c. is_space c ≡ false) s → trim_right s ≡ s
unfolding trim_right
trim_right_spaceless [] h = refl
trim_right_spaceless (c ∷ s) h = rw (h.0, trim_right_spaceless s h.1) (ground arith)

-- A text without spaces is trimmed.
pub trim_space_spaceless : (s : Text) → All (λ c. is_space c ≡ false) s → trim_space s ≡ s
unfolding trim_space trim_left
trim_space_spaceless [] h = refl
trim_space_spaceless (c ∷ s) h = rw h.0 (trim_right_spaceless (c ∷ s) h)

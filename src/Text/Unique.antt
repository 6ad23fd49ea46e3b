-- ===== src/Text/Unique.antt =====
-- The loop that both `uniqueNonEmpty` of internal/store/models.go and the `uniqueOrdered` of the
-- three packages under internal/providers run: trim, drop the empty, drop what was seen.
use mathlib.Core.List.{Permᴰ}
use atomhub.Prelude.{
  ◌≡◌, refl, ◌∙◌, inl, inr, Bool, false, not, ◌&&◌, ◌||◌, List, [], ◌∷◌, arith, if◌then◌else◌,
  list_eq, list_eq_iff, list_eq_refl, All, Bool-cases, ap,
}
use atomhub.Text.{Text, is_empty, trim_space}
use atomhub.Text.Trim.{trim_space_idem}

abbrev pub contains : Text → List Text → Bool
contains value [] = false
contains value (t ∷ ts) = list_eq t value || contains value ts

-- `value` is not empty and not in `seen`
abbrev pub is_new : Text → List Text → Bool
is_new value seen = not (is_empty value) && not (contains value seen)

unfoldable pub unique_from : List Text → List Text → List Text
unique_from seen [] = []
unique_from seen (raw ∷ rest) =
    let value = trim_space raw in
    let fresh = is_new value seen in
    let later = unique_from (if fresh then value ∷ seen else seen) rest in
    if fresh then value ∷ later else later

unfoldable pub unique_ordered : List Text → List Text
unfolding unique_from
unique_ordered = unique_from []

-- No text stands twice.
abbrev pub IsUnique : List Text → Type 0
IsUnique [] = Unit {0}
IsUnique (t ∷ ts) = (contains t ts ≡ false) × IsUnique ts

abbrev pub contains_trimmed : Text → List Text → Bool
contains_trimmed value [] = false
contains_trimmed value (t ∷ ts) = list_eq (trim_space t) value || contains_trimmed value ts

-- What the loop keeps: the trimmed texts that are not empty and were not seen.
contains-unique_from :
    (value : Text) (seen texts : List Text)
    → contains value (unique_from seen texts) ≡ (is_new value seen && contains_trimmed value texts)
unfolding unique_from
contains-unique_from value seen [] = ground arith
contains-unique_from value seen (raw ∷ rest) = elim (Bool-cases (is_new (trim_space raw) seen)) [
  | inl e ↦ rw e (
      ground (
        arith,
        contains-unique_from value (trim_space raw ∷ seen) rest,
        list_eq_iff (trim_space raw) value,
      ))
  | inr e ↦
      rw e
        (ground (arith, contains-unique_from value seen rest, list_eq_iff (trim_space raw) value))
]

unique_from-IsUnique : (seen texts : List Text) → IsUnique (unique_from seen texts)
unfolding unique_from
unique_from-IsUnique seen [] = tt
unique_from-IsUnique seen (raw ∷ rest) = elim (Bool-cases (is_new (trim_space raw) seen)) [
  | inl e ↦ rw e (
    ground (
      arith,
      contains-unique_from (trim_space raw) (trim_space raw ∷ seen) rest,
      list_eq_refl (trim_space raw),
    ),
    unique_from-IsUnique (trim_space raw ∷ seen) rest,
  )
  | inr e ↦ rw e (unique_from-IsUnique seen rest)
]

-- A text as the loop keeps it: trimmed, and not empty.
abbrev pub IsClean : Text → Type 0
IsClean t = (trim_space t ≡ t) × (is_empty t ≡ false)

unique_from-IsClean : (seen texts : List Text) → All IsClean (unique_from seen texts)
unfolding unique_from
unique_from-IsClean seen [] = tt
unique_from-IsClean seen (raw ∷ rest) = elim (Bool-cases (is_new (trim_space raw) seen)) [
  | inl e ↦
      rw e
        ((trim_space_idem raw, ground (arith, e)), unique_from-IsClean (trim_space raw ∷ seen) rest)
  | inr e ↦ rw e (unique_from-IsClean seen rest)
]

-- No text of the list is among those seen.
abbrev AllNew : List Text → List Text → Type 0
AllNew seen = All (λ t. contains t seen ≡ false)

AllNew-cons :
    (t : Text) (seen ts : List Text) → contains t ts ≡ false → AllNew seen ts → AllNew (t ∷ seen) ts
AllNew-cons t seen [] n h = tt
AllNew-cons t seen (u ∷ us) n h =
    (ground (arith, list_eq_iff u t, list_eq_iff t u), AllNew-cons t seen us (ground arith) h.1)

unique_from_clean :
    (seen texts : List Text)
    → IsUnique texts
    → All IsClean texts
    → AllNew seen texts
    → unique_from seen texts ≡ texts
unfolding unique_from
unique_from_clean seen [] u c n = refl
unique_from_clean seen (t ∷ ts) u c n =
    rw (c.0.0, c.0.1, n.0)
      (ap (◌∷◌ t) (unique_from_clean (t ∷ seen) ts u.1 c.1 (AllNew-cons t seen ts u.0 n.1)))

module _ (texts : List Text) where
  -- The loop keeps each text that trims to something not empty, and nothing else.
  pub contains-unique_ordered :
      (value : Text)
      → contains value (unique_ordered texts)
        ≡ (not (is_empty value) && contains_trimmed value texts)
  unfolding unique_ordered
  contains-unique_ordered value = ground (arith, contains-unique_from value [] texts)

  pub unique_ordered-IsUnique : IsUnique (unique_ordered texts)
  unfolding unique_ordered
  unique_ordered-IsUnique = unique_from-IsUnique [] texts

  pub unique_ordered-IsClean : All IsClean (unique_ordered texts)
  unfolding unique_ordered
  unique_ordered-IsClean = unique_from-IsClean [] texts

All-nothing-seen : (ts : List Text) → AllNew [] ts
All-nothing-seen [] = tt
All-nothing-seen (t ∷ ts) = (refl, All-nothing-seen ts)

-- A list that is already clean and without repetition stays as it is, in its order.
pub unique_ordered_clean :
    (texts : List Text) → IsUnique texts → All IsClean texts → unique_ordered texts ≡ texts
unfolding unique_ordered
unique_ordered_clean texts u c = unique_from_clean [] texts u c (All-nothing-seen texts)

pub contains-perm :
    (value : Text) {ts us : List Text} → Permᴰ ts us → contains value ts ≡ contains value us
contains-perm value Permᴰ.nil = refl
contains-perm value (Permᴰ.cons {a = a} {b = b} {l₁ = l} {l₂ = m} e p) =
    ground (arith, contains-perm value p)
contains-perm value (Permᴰ.swap {a = a} {b = b} {a' = a'} {b' = b'} {l = l} e f) = ground arith
contains-perm value (Permᴰ.trans p q) = contains-perm value p ∙ contains-perm value q

pub IsUnique-perm : {ts us : List Text} → Permᴰ ts us → IsUnique ts → IsUnique us
IsUnique-perm Permᴰ.nil u = tt
IsUnique-perm (Permᴰ.cons {a = a} {b = b} {l₁ = l} {l₂ = m} e p) u =
    (ground (arith, contains-perm a p), IsUnique-perm p u.1)
IsUnique-perm (Permᴰ.swap {a = a} {b = b} {a' = a'} {b' = b'} {l = l} e f) u =
    (ground (arith, list_eq_iff b' a', list_eq_iff b a), (ground arith, u.1.1))
IsUnique-perm (Permᴰ.trans p q) u = IsUnique-perm q (IsUnique-perm p u)

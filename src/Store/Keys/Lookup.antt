-- ===== src/Store/Keys/Lookup.antt =====
-- How a lookup by id sees the statements of internal/store/keys.go.
use mathlib.Core.Option
use mathlib.Core.Path.{fun_ext}
use atomhub.Prelude.{
  ℕ, ◌≤◌, ◌<◌, ◌≡◌, refl, inl, inr, Bool, true, false, List, [], ◌∷◌, ◌++◌, Option, none, some,
  arith, ◌==◌, if◌then◌else◌, find?, Bool-cases,
}
use atomhub.Types.{UpstreamKey}
use atomhub.Store.Rows.{update_where, exists_where, rows_of, find-update_where}
use atomhub.Store.Keys.{has_id}
use atomhub.Store.Sound.{Ascends}
use atomhub.Store.Keys.Registry.{registry_of, put}

-- An id above the ones given out is no key's, nor is one below.
Ascends-bound {ℓ} :
    {A : Type ℓ} (column : A → ℕ) (low : ℕ) (rows : List A) (high : ℕ)
    → Ascends column low rows high
    → low ≤ high
Ascends-bound column low [] high h = h
Ascends-bound column low (x ∷ rows) high h =
    let rest = Ascends-bound column (column x) rows high h.1 in omega (arith, h.0, rest)

pub find_above {ℓ} :
    {A : Type ℓ} (column : A → ℕ) (low : ℕ) (rows : List A) (high k : ℕ)
    → Ascends column low rows high
    → high < k
    → find? (λ r. column r == k) rows ≡ none
find_above column low [] high k h above = refl
find_above column low (x ∷ rows) high k h above =
    let bound = Ascends-bound column (column x) rows high h.1 in
    let rest = find_above column (column x) rows high k h.1 above in ground arith

pub find_below {ℓ} :
    {A : Type ℓ} (column : A → ℕ) (low : ℕ) (rows : List A) (high k : ℕ)
    → Ascends column low rows high
    → k ≤ low
    → find? (λ r. column r == k) rows ≡ none
find_below column low [] high k h below = refl
find_below column low (x ∷ rows) high k h below =
    let above = h.0 in
    let rest = find_below column (column x) rows high k h.1 (omega (arith, h.0)) in ground arith

pub find-append {ℓ} :
    {A : Type ℓ} (column : A → ℕ) (rows : List A) (r : A) (j : ℕ)
    → find? (λ x. column x == column r) rows ≡ none
    → find? (λ x. column x == j) (rows ++ r ∷ [])
      ≡ (if column r == j then some r else find? (λ x. column x == j) rows)
find-append column [] r j new = ground arith
find-append column (x ∷ rows) r j new = elim (Bool-cases (column x == column r)) [
  | inl e ↦ let never : some x ≡ none = rw e at new in cc
  | inr e ↦ let rest = find-append column rows r j (rw e at new) in ground arith
]

-- An update of the rows of a key is one of its value in the map.
pub view-update_where :
    (k : ℕ) (f : UpstreamKey → UpstreamKey) (rows : List UpstreamKey)
    → ((r : UpstreamKey) → (f r).id ≡ r.id)
    → registry_of (update_where (has_id k) f rows)
      ≡ put k (Option.map f (registry_of rows k)) (registry_of rows)
view-update_where k f rows keep = fun_ext (λ j.
    let updated = find-update_where (λ (r : UpstreamKey). r.id) k j f rows keep in ground arith)

-- The first of the rows of a number is the one that a lookup finds.
abbrev pub first_of {ℓ} : {A : Type ℓ} → List A → Option A
first_of [] = none
first_of (x ∷ xs) = some x

pub find-rows_of {ℓ} :
    {A : Type ℓ} (column : A → ℕ) (j : ℕ) (rows : List A)
    → find? (λ r. column r == j) rows ≡ first_of (rows_of column j rows)
find-rows_of column j [] = refl
find-rows_of column j (x ∷ rows) = elim (Bool-cases (column x == j)) [
  | inl e ↦ rw e refl
  | inr e ↦ rw e (find-rows_of column j rows)
]

pub find-exists_where {ℓ} :
    {A : Type ℓ} (p : A → Bool) (rows : List A) → exists_where p rows ≡ false → find? p rows ≡ none
unfolding exists_where
find-exists_where p [] h = refl
find-exists_where p (x ∷ rows) h = elim (Bool-cases (p x)) [
  | inl e ↦ let never : true ≡ false = rw e at h in cc
  | inr e ↦ rw e (find-exists_where p rows (rw e at h))
]

pub exists-found {ℓ} :
    {A : Type ℓ} (p : A → Bool) (rows : List A)
    → exists_where p rows ≡ true
    → (r : A) × (find? p rows ≡ some r)
unfolding exists_where
exists-found p [] h = cc
exists-found p (x ∷ rows) h = elim (Bool-cases (p x)) [
  | inl e ↦ (x, rw e refl)
  | inr e ↦ rw e (exists-found p rows (rw (e, exists_where) at h))
]

-- ===== src/Store/Rows.antt =====
-- SQL on one table, held as a list of rows in the order of their insertion.
use mathlib.Core.Option
use atomhub.Prelude.{
  ℕ, ◌≡◌, Bool, true, false, List, [], ◌∷◌, arith, if◌then◌else◌, filter, Bool-cases, ◌==◌, inl,
  inr, find?,
}

module _ {ℓ} {A : Type ℓ} where
  -- update … set … where …
  unfoldable pub update_where : (A → Bool) → (A → A) → List A → List A
  update_where test change [] = []
  update_where test change (r ∷ rs) = (if test r then change r else r) ∷ update_where test change rs

  -- delete from … where …
  unfoldable pub delete_where : (A → Bool) → List A → List A
  delete_where test [] = []
  delete_where test (r ∷ rs) = if test r then delete_where test rs else r ∷ delete_where test rs

  -- a row that meets the condition is there: RowsAffected is not 0
  unfoldable pub exists_where : (A → Bool) → List A → Bool
  exists_where test [] = false
  exists_where test (r ∷ rs) = if test r then true else exists_where test rs

-- The rows that belong to a number, by a column.
abbrev pub rows_of {ℓ} : {A : Type ℓ} → (A → ℕ) → ℕ → List A → List A
rows_of column j = filter (λ r. column r == j)

-- A deletion by the column empties the rows of one number and keeps those of every other.
pub rows_of-delete_where {ℓ} :
    {A : Type ℓ} (column : A → ℕ) (k j : ℕ) (rows : List A)
    → rows_of column j (delete_where (λ r. column r == k) rows)
      ≡ (if k == j then [] else rows_of column j rows)
unfolding delete_where
rows_of-delete_where column k j [] = ground arith
rows_of-delete_where column k j (r ∷ rows) = elim (Bool-cases (column r == k)) [
  | inl e ↦ rw e (ground (arith, rows_of-delete_where column k j rows))
  | inr e ↦ rw e (ground (arith, rows_of-delete_where column k j rows))
]

-- An update of the rows of one number that keeps the column, as a lookup sees it.
pub find-update_where {ℓ} :
    {A : Type ℓ} (column : A → ℕ) (k j : ℕ) (change : A → A) (rows : List A)
    → ((r : A) → column (change r) ≡ column r)
    → find? (λ r. column r == j) (update_where (λ r. column r == k) change rows) ≡ (
        if k == j
        then Option.map change (find? (λ r. column r == j) rows)
        else find? (λ r. column r == j) rows)
unfolding update_where
find-update_where column k j change [] same = ground arith
find-update_where column k j change (r ∷ rows) same = elim (Bool-cases (column r == k)) [
  | inl e ↦ rw e (ground (arith, same r, find-update_where column k j change rows same))
  | inr e ↦ rw e (ground (arith, find-update_where column k j change rows same))
]

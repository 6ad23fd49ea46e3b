-- ===== src/Store/State/View.antt =====
-- The rows of `key_state` in internal/store/state.go, as the program reads them: a key without a row
-- is a healthy one.
use atomhub.Prelude.{
  ℕ, ◌≡◌, true, List, [], ◌∷◌, ◌++◌, Option, none, some, arith, ◌==◌, if◌then◌else◌, find?,
  Bool-cases, inl, inr,
}
use atomhub.Types.{KeyState}
use atomhub.Store.Rows.{update_where, exists_where, find-update_where}
use atomhub.Store.State.{of_key, new_state, ensure_row}

abbrev pub row_or_new : ℕ → Option KeyState → KeyState
row_or_new key_id none = new_state key_id
row_or_new key_id (some row) = row

unfoldable pub read_row : ℕ → List KeyState → KeyState
read_row key_id rows = row_or_new key_id (find? (of_key key_id) rows)

pub read_row-ensure_row :
    (k j : ℕ) (rows : List KeyState) → read_row j (ensure_row k rows) ≡ read_row j rows
unfolding read_row ensure_row exists_where
read_row-ensure_row k j [] = ground arith
read_row-ensure_row k j (r ∷ rows) = ground (arith, read_row-ensure_row k j rows)

exists_where_last :
    (k : ℕ) (rows : List KeyState) → exists_where (of_key k) (rows ++ new_state k ∷ []) ≡ true
unfolding exists_where
exists_where_last k [] = ground arith
exists_where_last k (r ∷ rows) = ground (arith, exists_where_last k rows)

pub exists_where-ensure_row :
    (k : ℕ) (rows : List KeyState) → exists_where (of_key k) (ensure_row k rows) ≡ true
unfolding ensure_row exists_where
exists_where-ensure_row k rows = ground (arith, exists_where_last k rows)

-- A row that is changed keeps its key.
abbrev pub KeepsKey : (KeyState → KeyState) → Type 0
KeepsKey change = (r : KeyState) → (change r).key_id ≡ r.key_id

pub exists-find :
    (k : ℕ) (rows : List KeyState)
    → exists_where (of_key k) rows ≡ true
    → (r : KeyState) × (find? (of_key k) rows ≡ some r)
unfolding exists_where
exists-find k [] h = cc
exists-find k (r ∷ rows) h = elim (Bool-cases (of_key k r)) [
  | inl e ↦ (r, rw e)
  | inr e ↦ rw e (exists-find k rows (rw (e, exists_where) at h))
]

pub read_row-update_where :
    (k j : ℕ) (change : KeyState → KeyState) (rows : List KeyState)
    → KeepsKey change
    → exists_where (of_key k) rows ≡ true
    → read_row j (update_where (of_key k) change rows)
      ≡ (if k == j then change (read_row k rows) else read_row j rows)
unfolding read_row
read_row-update_where k j change rows same h =
    let (r, found) = exists-find k rows h in
    rw (find-update_where (λ (r : KeyState). r.key_id) k j change rows same) (ground arith)

pub row_found :
    (k : ℕ) (rows : List KeyState)
    → exists_where (of_key k) rows ≡ true
    → find? (of_key k) rows ≡ some (read_row k rows)
unfolding read_row
row_found k rows h = let (r, found) = exists-find k rows h in ground arith

-- ===== src/Schema/Growth.antt =====
-- The statements on a schema take nothing away.
use atomhub.Prelude.{
  ◌≡◌, refl, ◌∙◌, ap, inl, inr, Bool, true, false, ◌||◌, List, [], ◌∷◌, ◌++◌, if◌then◌else◌, arith,
  Bool-cases, list_eq_refl,
}
use atomhub.Text.{Text}
use atomhub.Store.Rows.{exists_where}
use atomhub.Schema.{
  Column, Table, Schema, is_column, is_table, has_table, columns_of, has_column, create_table,
  add_column,
}

exists_where_last {ℓ} :
    {A : Type ℓ} (p : A → Bool) (xs : List A) (x : A)
    → exists_where p (xs ++ x ∷ []) ≡ (exists_where p xs || p x)
unfolding exists_where
exists_where_last p [] x = elim (Bool-cases (p x)) [ inl e ↦ rw e refl | inr e ↦ rw e refl ]
exists_where_last p (y ∷ xs) x = elim (Bool-cases (p y)) [
  | inl e ↦ rw e refl
  | inr e ↦ rw e (exists_where_last p xs x)
]

same_table : (t : Table) → is_table t.name t ≡ true
same_table t = list_eq_refl t.name

columns_of_last :
    (n : Text) (schema : Schema) (t : Table)
    → columns_of n (schema ++ t ∷ [])
      ≡ (if has_table n schema then columns_of n schema else if is_table n t then t.columns else [])
unfolding columns_of exists_where
columns_of_last n [] t = refl
columns_of_last n (x ∷ schema) t = elim (Bool-cases (is_table n x)) [
  | inl e ↦ rw e refl
  | inr e ↦ rw e (columns_of_last n schema t)
]

-- a table that is not there has no columns
no_columns : (n : Text) (schema : Schema) → has_table n schema ≡ false → columns_of n schema ≡ []
unfolding columns_of exists_where
no_columns n [] h = refl
no_columns n (x ∷ schema) h = elim (Bool-cases (is_table n x)) [
  | inl e ↦ let never : true ≡ false = rw e at h in cc
  | inr e ↦ rw e (no_columns n schema (rw e at h))
]

module _ (t : Table) (schema : Schema) where
  pub has_table-create_table :
      (n : Text) → has_table n schema ≡ true → has_table n (create_table t schema) ≡ true
  unfolding create_table
  has_table-create_table n h = elim (Bool-cases (has_table t.name schema)) [
    | inl e ↦ rw e h
    | inr e ↦ rw e (exists_where_last (is_table n) schema t ∙ rw h refl)
  ]

  pub has_column-create_table :
      (n c : Text) → has_column n c schema ≡ true → has_column n c (create_table t schema) ≡ true
  unfolding create_table exists_where
  has_column-create_table n c h = elim (Bool-cases (has_table t.name schema)) [
    | inl e ↦ rw e h
    | inr e ↦ elim (Bool-cases (has_table n schema)) [
      | inl k ↦ rw e (ap (exists_where (is_column c)) (columns_of_last n schema t) ∙ rw k h)
      | inr k ↦ let never : false ≡ true = rw (no_columns n schema k) at h in cc
    ]
  ]

  pub created : has_table t.name (create_table t schema) ≡ true
  unfolding create_table
  created = elim (Bool-cases (has_table t.name schema)) [
    | inl e ↦ rw e e
    | inr e ↦ rw e (exists_where_last (is_table t.name) schema t ∙ rw (e, same_table t) refl)
  ]

  pub columns_of-created :
      has_table t.name schema ≡ false → columns_of t.name (create_table t schema) ≡ t.columns
  unfolding create_table
  columns_of-created h = rw h (columns_of_last t.name schema t ∙ rw (h, same_table t) refl)

  -- a table that is there already
  pub create_table_again : has_table t.name schema ≡ true → create_table t schema ≡ schema
  unfolding create_table
  create_table_again h = rw h refl

  pub still_missing :
      (n : Text)
      → has_table n schema ≡ false
      → is_table n t ≡ false
      → has_table n (create_table t schema) ≡ false
  unfolding create_table
  still_missing n h k = elim (Bool-cases (has_table t.name schema)) [
    | inl e ↦ rw e h
    | inr e ↦ rw e (exists_where_last (is_table n) schema t ∙ rw (h, k) refl)
  ]

module _ (name : Text) (column : Column) where
  pub has_table-add_column :
      (n : Text) (schema : Schema)
      → has_table n (add_column name column schema) ≡ has_table n schema
  unfolding add_column exists_where
  has_table-add_column n [] = refl
  has_table-add_column n (t ∷ schema) = elim (Bool-cases (is_table name t)) [
    | inl e ↦ rw e refl
    | inr e ↦ rw e (ap (λ b. if is_table n t then true else b) (has_table-add_column n schema))
  ]

  pub has_column-add_column :
      (n c : Text) (schema : Schema)
      → has_column n c schema ≡ true
      → has_column n c (add_column name column schema) ≡ true
  unfolding add_column columns_of exists_where
  has_column-add_column n c [] h = cc
  has_column-add_column n c (t ∷ schema) h = elim (Bool-cases (is_table name t)) [
    | inl e ↦ elim (Bool-cases (is_table n t)) [
      | inl k ↦ rw (e, k) (exists_where_last (is_column c) t.columns column ∙ rw (rw k at h) refl)
      | inr k ↦ rw (e, k) (rw k at h)
    ]
    | inr e ↦ elim (Bool-cases (is_table n t)) [
      | inl k ↦ rw (e, k) (rw k at h)
      | inr k ↦ rw (e, k) (has_column-add_column n c schema (rw k at h))
    ]
  ]

  pub column_added :
      (schema : Schema)
      → has_table name schema ≡ true
      → has_column name column.name (add_column name column schema) ≡ true
  unfolding add_column columns_of exists_where
  column_added [] h = cc
  column_added (t ∷ schema) h = elim (Bool-cases (is_table name t)) [
    | inl e ↦
        rw (e, e)
          (exists_where_last (is_column column.name) t.columns column
            ∙ ground (arith, list_eq_refl column.name))
    | inr e ↦ rw (e, e) (column_added schema (rw e at h))
  ]

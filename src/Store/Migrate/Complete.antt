-- ===== src/Store/Migrate/Complete.antt =====
-- `Migrate` of internal/store/migrate.go gives every table with every column that the stores use, on a
-- new file and on one of an earlier version.
use mathlib.Core.Path.{subst}
use atomhub.Prelude.{
  ◌≡◌, refl, ◌∙◌, ap, sym, inl, inr, ◌⊎◌, Bool, true, false, ◌||◌, ◌&&◌, List, [], ◌∷◌, arith,
  Bool-cases, list_eq, list_eq_iff, list_eq_refl, All, All-map,
}
use atomhub.Text.{Text, codes}
use atomhub.Types.{Result, ok, err}
use atomhub.Server.{Server, Tables}
use atomhub.Server.Outcome.{Outcome-mono, Outcome-pure, Holds}
use atomhub.Server.Invariant.{Maintains}
use atomhub.Store.Rows.{exists_where}
use atomhub.Schema.{Column, Table, Schema, is_column, has_table, has_column, create_table}
use atomhub.Schema.Growth.{created, columns_of-created, still_missing, has_column-create_table}
use atomhub.Store.Sound.{IsDistinct}
use atomhub.Store.Migrate.{tables, added_to_logs, added_to_clients, create_all, migrate}
use atomhub.Store.Migrate.Grew.{
  Grew, Grew-faults, Adds, Adds-seq, create-Adds, ensure_column_exists-Adds,
}

-- the columns that files of an earlier version lack
abbrev pub is_added : Text → Text → Bool
is_added table column =
    (list_eq table (codes "request_logs") && list_eq column added_to_logs.name)
    || (list_eq table (codes "downstream_keys") && list_eq column added_to_clients.name)

-- The table has the columns of the earlier version.
abbrev pub HasEarlier : Schema → Table → Type 0
HasEarlier schema t =
    All (λ (c : Column). (is_added t.name c.name || has_column t.name c.name schema) ≡ true)
      t.columns

-- A new file, a file of the program, now or before it had the two columns, or what an interrupted
-- migration left of one: each table is missing, or has the columns of the earlier version.
abbrev pub IsEarlier : Schema → Type 0
IsEarlier schema =
    All (λ (t : Table). (has_table t.name schema ≡ false) ⊎ HasEarlier schema t) tables

abbrev pub HasAll : Schema → Table → Type 0
HasAll schema t =
    (has_table t.name schema ≡ true)
    × All (λ (c : Column). has_column t.name c.name schema ≡ true) t.columns

abbrev pub IsComplete : Schema → Type 0
IsComplete schema = All (HasAll schema) tables

abbrev same_name : Table → Table → Bool
same_name a b = list_eq a.name b.name

own_columns :
    (columns : List Column)
    → All (λ (c : Column). exists_where (is_column c.name) columns ≡ true) columns
unfolding exists_where
own_columns [] = tt
own_columns (c ∷ columns) = (
  rw (list_eq_refl c.name) refl,
  All-map columns (λ d h. ground (arith, h)) (own_columns columns),
)

-- What is there for a schema is there for one that has more.
module _ (a b : Schema)
    (more : (n c : Text) → has_column n c a ≡ true → has_column n c b ≡ true) where
  HasEarlier-more : (t : Table) → HasEarlier a t → HasEarlier b t
  HasEarlier-more t = All-map t.columns (λ c h. elim (Bool-cases (is_added t.name c.name)) [
    | inl e ↦ rw e refl
    | inr e ↦ rw e (more t.name c.name (rw e at h))
  ])

-- a table just created, or there before
HasEarlier-created :
    (t : Table) (schema : Schema)
    → (has_table t.name schema ≡ false) ⊎ HasEarlier schema t
    → HasEarlier (create_table t schema) t
HasEarlier-created t schema (inr h) =
    HasEarlier-more schema _ (has_column-create_table t schema) t h
HasEarlier-created t schema (inl missing) =
    All-map t.columns
      (λ c h.
        let here : has_column t.name c.name (create_table t schema) ≡ true =
          ap (exists_where (is_column c.name)) (columns_of-created t schema missing) ∙ h in
        rw here (ground arith))
      (own_columns t.columns)

still_earlier :
    (t : Table) (schema : Schema) (rest : List Table)
    → exists_where (same_name t) rest ≡ false
    → All (λ (x : Table). (has_table x.name schema ≡ false) ⊎ HasEarlier schema x) rest
    → All
        (λ (x : Table).
          (has_table x.name (create_table t schema) ≡ false) ⊎ HasEarlier (create_table t schema) x)
        rest
unfolding exists_where
still_earlier t schema [] d h = tt
still_earlier t schema (x ∷ rest) d h = elim (Bool-cases (same_name t x)) [
  | inl e ↦ let never : true ≡ false = rw e at d in cc
  | inr e ↦ (
    elim h.0 [
      | inl missing ↦ inl (still_missing t schema x.name missing e)
      | inr there ↦ inr (HasEarlier-more schema _ (has_column-create_table t schema) x there)
    ],
    still_earlier t schema rest (rw e at d) h.1,
  )
]

-- The table is there, with the columns of the earlier version.
abbrev Settled : Schema → Table → Type 0
Settled schema t = (has_table t.name schema ≡ true) × HasEarlier schema t

create_all-Adds :
    (rest : List Table) (s : Server)
    → IsDistinct same_name rest
    → Adds
        (λ u t.
          All (λ (x : Table). (has_table x.name s.schema ≡ false) ⊎ HasEarlier s.schema x) rest
          → All (Settled t.schema) rest)
        (create_all rest)
        s
unfolding create_all
create_all-Adds [] s d = Outcome-pure (Grew-faults s s.faults, λ h. tt)
create_all-Adds (x ∷ rest) s d = Adds-seq (create-Adds x s) (λ u t g made.
    Outcome-mono (create_all-Adds rest t d.1) (λ e v k. k)
      (λ u' v (k : Grew t v × _). (
        k.0,
        λ h. (
          (
            k.0.tables x.name (ap (has_table x.name) made ∙ created x s.schema),
            HasEarlier-more t.schema v.schema k.0.columns x (
                subst (λ (y : Schema). HasEarlier y x) (sym made)
                  (HasEarlier-created x s.schema h.0)),
          ),
          k.1 (
              subst
                (λ (y : Schema).
                  All (λ (x : Table). (has_table x.name y ≡ false) ⊎ HasEarlier y x) rest)
                (sym made) (still_earlier x s.schema rest d.0 h.1)),
        ),
      )))

module _ (schema : Schema)
    (logs : has_column (codes "request_logs") added_to_logs.name schema ≡ true)
    (clients : has_column (codes "downstream_keys") added_to_clients.name schema ≡ true) where
  named :
      (t c n d : Text)
      → has_column n d schema ≡ true
      → (list_eq t n && list_eq c d) ≡ true
      → has_column t c schema ≡ true
  named t c n d there e = elim (Bool-cases (list_eq t n)) [
    | inl k ↦ elim (Bool-cases (list_eq c d)) [
      | inl l ↦
          let table : t ≡ n = (list_eq_iff t n).0 k in
          let column : c ≡ d = (list_eq_iff c d).0 l in
          ap (λ (x : Text). has_column x c schema) table
          ∙ ap (λ (x : Text). has_column n x schema) column
          ∙ there
      | inr l ↦ let never : false ≡ true = rw (k, l) at e in cc
    ]
    | inr k ↦ let never : false ≡ true = rw k at e in cc
  ]

  all_there :
      (t c : Text) → (is_added t c || has_column t c schema) ≡ true → has_column t c schema ≡ true
  all_there t c h =
      elim (Bool-cases (list_eq t (codes "request_logs") && list_eq c added_to_logs.name)) [
        | inl e ↦ named t c (codes "request_logs") added_to_logs.name logs e
        | inr e ↦
            elim (Bool-cases
              (list_eq t (codes "downstream_keys") && list_eq c added_to_clients.name)) [
                | inl k ↦ named t c (codes "downstream_keys") added_to_clients.name clients k
                | inr k ↦ rw (e, k) at h
              ]
      ]

  completed : All (Settled schema) tables → IsComplete schema
  completed h =
      All-map {Q = HasAll schema} tables
        (λ t (k : Settled schema t).
          (k.0, All-map t.columns (λ c l. all_there t.name c.name l) k.1))
        h

tables-IsDistinct : IsDistinct same_name tables
unfolding exists_where list_eq
tables-IsDistinct = (refl, (refl, (refl, (refl, (refl, (refl, tt))))))

pub migrate-Adds : (s : Server) → Adds (λ u t. IsEarlier s.schema → IsComplete t.schema) migrate s
unfolding migrate
migrate-Adds s = Adds-seq (create_all-Adds tables s tables-IsDistinct) (λ u t g settled.
    Adds-seq (ensure_column_exists-Adds (codes "request_logs") added_to_logs t) (λ v w k logs.
      Outcome-mono (ensure_column_exists-Adds (codes "downstream_keys") added_to_clients w)
        (λ e x l. l)
        (λ v' x
            (l : Grew w x
              × (has_column (codes "downstream_keys") added_to_clients.name x.schema ≡ true)).
          (
            l.0,
            λ earlier.
                completed x.schema (l.0.columns (codes "request_logs") added_to_logs.name logs) l.1
                  (All-map {Q = Settled x.schema} tables
                    (λ (y : Table) (h : Settled t.schema y). (
                      l.0.tables y.name (k.tables y.name h.0),
                      HasEarlier-more t.schema x.schema
                          (λ n c there. l.0.columns n c (k.columns n c there)) y h.1,
                    ))
                    (settled earlier)),
          ))))

Holds-tables :
    (P : Tables → Type 0) (s : Server) (r : Result (Unit {0}) × Server)
    → Holds (λ e t. Grew s t) (λ u t. Grew s t × (IsEarlier s.schema → IsComplete t.schema)) r
    → P s.tables
    → P r.1.tables
Holds-tables P s (ok u, t) h p = subst P (sym h.0.untouched.tables) p
Holds-tables P s (err e, t) h p = subst P (sym h.untouched.tables) p

-- what holds of the rows still does
pub migrate-Maintains : (P : Tables → Type 0) → Maintains P migrate
migrate-Maintains P = record { at = λ s p. Holds-tables P s (migrate s) (migrate-Adds s).holds p }

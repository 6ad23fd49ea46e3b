-- ===== src/Store/Migrate/Grew.antt =====
-- What each call of internal/store/migrate.go does: nothing to the tables' rows, and nothing to the
-- schema but new tables and columns.
use atomhub.Prelude.{
  ◌≡◌, refl, ◌∙◌, sym, ap, inl, inr, ◌⊎◌, Bool, true, false, List, [], ◌∷◌, none, some, Bool-cases,
}
use atomhub.Text.{Text}
use atomhub.Server.{Server, M, ◌>>=◌, driver_call}
use atomhub.Server.Outcome.{
  Outcome, Outcome-bind, Outcome-seq, Outcome-mono, Outcome-pure, Outcome-driver_call, with_faults,
  Untouched,
}
use atomhub.Server.Wrapped.{wrap, Outcome-wrap}
use atomhub.Store.Rows.{exists_where}
use atomhub.Schema.{
  Column, Table, Schema, is_column, has_table, columns_of, has_column, create_table, add_column,
  alter_table,
}
use atomhub.Schema.Growth.{
  has_table-create_table, has_column-create_table, has_table-add_column, has_column-add_column,
  column_added,
}
use atomhub.Store.Migrate.{
  run_schema, exec_schema, table_info, find_column, unless_found, ensure_column_exists,
}

-- No row, counter or catalog entry is changed, and no table and no column is lost.
pub record Grew (s t : Server) : Type 0 where
  pub untouched : Untouched s t
  pub tables : (n : Text) → has_table n s.schema ≡ true → has_table n t.schema ≡ true
  pub columns : (n c : Text) → has_column n c s.schema ≡ true → has_column n c t.schema ≡ true

pub Grew-trans : {s t u : Server} → Grew s t → Grew t u → Grew s u
Grew-trans a b = record {
  untouched = record {
    tables = b.untouched.tables ∙ a.untouched.tables;
    memory = record {
      inflight = b.untouched.memory.inflight ∙ a.untouched.memory.inflight;
      keys_by_model = b.untouched.memory.keys_by_model ∙ a.untouched.memory.keys_by_model;
    };
  };
  tables = λ n h. b.tables n (a.tables n h);
  columns = λ n c h. b.columns n c (a.columns n c h);
}

-- another schema
module _ (s : Server) (schema : Schema)
    (keeps : (n : Text) → has_table n s.schema ≡ true → has_table n schema ≡ true)
    (keeps_columns : (n c : Text)
      → has_column n c s.schema ≡ true
      → has_column n c schema ≡ true) where
  Grew-schema : (fs : List Bool) → Grew s (record s { schema = schema; faults = fs })
  Grew-schema fs = record {
    untouched = record { tables = refl; memory = record { inflight = refl; keys_by_model = refl } };
    tables = keeps;
    columns = keeps_columns;
  }

pub Grew-faults : (s : Server) (fs : List Bool) → Grew s (with_faults fs s)
Grew-faults s fs = Grew-schema s s.schema (λ n h. h) (λ n c h. h) fs

-- A call that at most adds to the schema, and has `Q` when it succeeds.
abbrev pub Adds : {A : Type 0} → (A → Server → Type 0) → M A → Server → Type 0
Adds Q m s = Outcome (λ e t. Grew s t) (λ a t. Grew s t × Q a t) m s

-- one such call after another
pub Adds-seq :
    {A B : Type 0} {R : A → Server → Type 0} {Q : B → Server → Type 0} {m : M A} {f : A → M B}
    {s : Server}
    → Adds R m s
    → ((a : A) (t : Server) → Grew s t → R a t → Adds Q (f a) t)
    → Adds Q (m >>= f) s
Adds-seq h k = Outcome-seq h (λ a t (r : Grew _ t × _).
    Outcome-mono (k a t r.0 r.1) (λ e u g. Grew-trans r.0 g)
      (λ b u (q : Grew t u × _). (Grew-trans r.0 q.0, q.1)))

pub Adds-driver_call : (s : Server) → Adds (λ u t. t.schema ≡ s.schema) driver_call s
Adds-driver_call s = Outcome-driver_call (λ fs. Grew-faults s fs) (λ fs. (Grew-faults s fs, refl))

-- create table if not exists
pub create-Adds :
    (table : Table) (s : Server)
    → Adds
        (λ u t. t.schema ≡ create_table table s.schema)
        (exec_schema (λ schema. some (create_table table schema)))
        s
unfolding exec_schema run_schema
create-Adds table s = Outcome-bind {m = driver_call} (
    Outcome-driver_call (λ fs. Grew-faults s fs)
      (λ fs. record {
        holds = (
          Grew-schema s (create_table table s.schema) (has_table-create_table table s.schema)
              (has_column-create_table table s.schema) fs,
          refl,
        );
      }))

alter_cases :
    (table : Text) (column : Column) (schema : Schema)
    → (alter_table table column schema ≡ none)
      ⊎ ((alter_table table column schema ≡ some (add_column table column schema))
          × (has_table table schema ≡ true))
unfolding alter_table
alter_cases table column schema = elim (Bool-cases (has_column table column.name schema)) [
  | inl e ↦ inl (rw e refl)
  | inr e ↦ elim (Bool-cases (has_table table schema)) [
    | inl k ↦ inr (rw (e, k) (refl, refl))
    | inr k ↦ inl (rw (e, k) refl)
  ]
]

alter-Adds :
    (table : Text) (column : Column) (s : Server)
    → Adds
        (λ u t. has_column table column.name t.schema ≡ true)
        (exec_schema (alter_table table column))
        s
unfolding exec_schema run_schema
alter-Adds table column s = Outcome-bind {m = driver_call} (
    Outcome-driver_call (λ fs. Grew-faults s fs)
      (λ fs. elim (alter_cases table column s.schema) [
        | inl e ↦ record { holds = rw (e, run_schema) (Grew-faults s fs) }
        | inr (e, there) ↦ record {
          holds =
              rw (e, run_schema)
                (
                  Grew-schema s (add_column table column s.schema)
                      (λ n h. has_table-add_column table column n s.schema ∙ h)
                      (λ n c h. has_column-add_column table column n c s.schema h) fs,
                  column_added table column s.schema there,
                );
        }
      ]))

Adds-wrap :
    {A : Type 0} {Q : A → Server → Type 0} {m : M A} {s : Server} (prefix : Text)
    → Adds Q m s
    → Adds Q (wrap prefix m) s
Adds-wrap {m = m} {s = s} prefix h = Outcome-wrap (λ t. Grew s t) prefix _ m s h

find_column-Adds :
    (table name : Text) (columns : List Column) (s : Server)
    → Adds
        (λ found t. (t.schema ≡ s.schema) × (found ≡ exists_where (is_column name) columns))
        (find_column table name columns)
        s
unfolding find_column exists_where
find_column-Adds table name [] s =
    Adds-seq (Adds-wrap _ (Adds-driver_call s))
      (λ u t g same. Outcome-pure (Grew-faults t t.faults, (same, refl)))
find_column-Adds table name (column ∷ columns) s =
    Adds-seq (Adds-wrap _ (Adds-driver_call s)) (λ u w g' before.
      Adds-seq (Adds-wrap _ (Adds-driver_call w)) (λ u' t g after.
        let same : t.schema ≡ s.schema = after ∙ before in
        elim (Bool-cases (is_column name column)) [
          | inl e ↦ rw e (Outcome-pure (Grew-faults t t.faults, (same, refl)))
          | inr e ↦ rw e (
              Outcome-mono (find_column-Adds table name columns t) (λ x v k. k)
                (λ b v
                    (k : Grew t v
                      × ((v.schema ≡ t.schema) × (b ≡ exists_where (is_column name) columns))).
                  (k.0, (k.1.0 ∙ same, k.1.1))))
        ]))

table_info-Adds :
    (table : Text) (s : Server)
    → Adds
        (λ columns t. (t.schema ≡ s.schema) × (columns ≡ columns_of table s.schema))
        (table_info table)
        s
unfolding table_info
table_info-Adds table s =
    Adds-seq (Adds-driver_call s) (λ u t g same. record {
      holds = (Grew-faults t t.faults, (same, ap (columns_of table) same));
    })

unless_found-Adds :
    (found : Bool) (table : Text) (column : Column) (s : Server)
    → found ≡ has_column table column.name s.schema
    → Adds (λ u t. has_column table column.name t.schema ≡ true) (unless_found found table column) s
unfolding unless_found
unless_found-Adds true table column s h = Outcome-pure (Grew-faults s s.faults, sym h)
unless_found-Adds false table column s h = Adds-wrap _ (alter-Adds table column s)

-- The column is there in the end, whether it was before or not.
pub ensure_column_exists-Adds :
    (table : Text) (column : Column) (s : Server)
    → Adds
        (λ u t. has_column table column.name t.schema ≡ true)
        (ensure_column_exists table column)
        s
unfolding ensure_column_exists
ensure_column_exists-Adds table column s =
    Adds-seq (Adds-wrap _ (table_info-Adds table s))
      (λ columns t g (read : (t.schema ≡ s.schema) × (columns ≡ columns_of table s.schema)).
        Adds-seq (find_column-Adds table column.name columns t)
          (λ found u k
              (r : (u.schema ≡ t.schema) × (found ≡ exists_where (is_column column.name) columns)).
            unless_found-Adds found table column u (
              r.1
              ∙ ap (exists_where (is_column column.name))
                  (read.1 ∙ sym (ap (columns_of table) (r.0 ∙ read.0))))))

-- ===== src/Schema.antt =====
-- What a database file says of its tables, and the statements of SQLite on it that
-- internal/store/migrate.go uses. The names are written in small letters throughout.
pub mod Growth
use atomhub.Prelude.{
  Bool, true, false, List, [], ◌∷◌, ◌++◌, Option, none, some, if◌then◌else◌, list_eq,
}
use atomhub.Text.{Text}
use atomhub.Store.Rows.{exists_where}

pub record Column : Type 0 where
  pub name : Text
  pub definition : Text

pub record Table : Type 0 where
  pub name : Text
  pub columns : List Column
  pub constraints : List Text

abbrev pub Schema : Type 0
Schema = List Table

abbrev pub is_column : Text → Column → Bool
is_column name column = list_eq column.name name

abbrev pub is_table : Text → Table → Bool
is_table name table = list_eq table.name name

abbrev pub has_table : Text → Schema → Bool
has_table name = exists_where (is_table name)

-- pragma table_info: no rows where there is no such table
unfoldable pub columns_of : Text → Schema → List Column
columns_of name [] = []
columns_of name (table ∷ tables) =
    if is_table name table then table.columns else columns_of name tables

abbrev pub has_column : Text → Text → Schema → Bool
has_column table column schema = exists_where (is_column column) (columns_of table schema)

-- create table if not exists
unfoldable pub create_table : Table → Schema → Schema
create_table table schema = if has_table table.name schema then schema else schema ++ table ∷ []

unfoldable pub add_column : Text → Column → Schema → Schema
add_column name column [] = []
add_column name column (table ∷ tables) =
    if is_table name table
    then record table { columns = table.columns ++ column ∷ [] } ∷ tables
    else table ∷ add_column name column tables

-- alter table … add column; an error where there is no such table, or such a column
unfoldable pub alter_table : Text → Column → Schema → Option Schema
alter_table name column schema =
    if has_column name column.name schema
    then none
    else if has_table name schema
    then some (add_column name column schema)
    else none

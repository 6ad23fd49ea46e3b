-- ===== src/Store/Migrate.antt =====
-- The migration of internal/store/migrate.go: `Migrate` and `ensureColumnExists` on the schema of the
-- database file.
pub mod Grew
pub mod Complete
pub mod Columns
mod Examples
use atomhub.Prelude.{
  String, true, false, Bool, List, [], ◌∷◌, ◌++◌, Option, none, some, if◌then◌else◌, list_eq,
}
use atomhub.Text.{Text, codes}
use atomhub.Types.{database, ok, err}
use atomhub.Server.{Server, M, ◌>>=◌, ◌>>◌, pure, fail, driver_call}
use atomhub.Server.Wrapped.{wrap}
use atomhub.Schema.{Column, Table, Schema, columns_of, create_table, alter_table}

abbrev defined : String → String → Column
defined name definition = record { name = codes name; definition = codes definition }

abbrev pub admin_users : Table
admin_users = record {
  name = codes "admin_users";
  columns =
      defined "id" "integer primary key autoincrement"
      ∷ defined "username" "text not null unique"
      ∷ defined "password_hash" "text not null"
      ∷ defined "created_at" "text not null default current_timestamp"
      ∷ [];
  constraints = [];
}

abbrev pub upstream_keys : Table
upstream_keys = record {
  name = codes "upstream_keys";
  columns =
      defined "id" "integer primary key autoincrement"
      ∷ defined "name" "text not null"
      ∷ defined "provider" "text not null"
      ∷ defined "base_url" "text not null"
      ∷ defined "api_key" "text not null"
      ∷ defined "enabled" "integer not null default 1"
      ∷ defined "created_at" "text not null default current_timestamp"
      ∷ defined "updated_at" "text not null default current_timestamp"
      ∷ [];
  constraints = [];
}

abbrev pub key_models : Table
key_models = record {
  name = codes "key_models";
  columns =
      defined "id" "integer primary key autoincrement"
      ∷ defined "key_id" "integer not null"
      ∷ defined "model" "text not null"
      ∷ defined "created_at" "text not null default current_timestamp"
      ∷ [];
  constraints = codes "unique(key_id, model)" ∷ [];
}

abbrev pub key_state : Table
key_state = record {
  name = codes "key_state";
  columns =
      defined "key_id" "integer primary key"
      ∷ defined "status" "text not null default 'healthy'"
      ∷ defined "cooldown_until" "text"
      ∷ defined "consecutive_failures" "integer not null default 0"
      ∷ defined "last_error" "text"
      ∷ defined "last_success_at" "text"
      ∷ defined "last_probe_at" "text"
      ∷ [];
  constraints = [];
}

abbrev pub downstream_keys : Table
downstream_keys = record {
  name = codes "downstream_keys";
  columns =
      defined "id" "integer primary key autoincrement"
      ∷ defined "name" "text not null"
      ∷ defined "token_prefix" "text not null"
      ∷ defined "token_hash" "text not null unique"
      ∷ defined "encrypted_token" "text"
      ∷ defined "enabled" "integer not null default 1"
      ∷ defined "last_used_at" "text"
      ∷ defined "request_count" "integer not null default 0"
      ∷ defined "prompt_tokens" "integer not null default 0"
      ∷ defined "completion_tokens" "integer not null default 0"
      ∷ defined "total_tokens" "integer not null default 0"
      ∷ defined "created_at" "text not null default current_timestamp"
      ∷ defined "updated_at" "text not null default current_timestamp"
      ∷ [];
  constraints = [];
}

abbrev pub request_logs : Table
request_logs = record {
  name = codes "request_logs";
  columns =
      defined "id" "integer primary key autoincrement"
      ∷ defined "key_id" "integer not null"
      ∷ defined "downstream_key_id" "integer"
      ∷ defined "model" "text not null"
      ∷ defined "prompt_tokens" "integer not null default 0"
      ∷ defined "completion_tokens" "integer not null default 0"
      ∷ defined "total_tokens" "integer not null default 0"
      ∷ defined "latency_ms" "integer not null default 0"
      ∷ defined "status" "text not null"
      ∷ defined "error_message" "text"
      ∷ defined "created_at" "text not null default current_timestamp"
      ∷ [];
  constraints = [];
}

abbrev pub tables : List Table
tables = admin_users ∷ upstream_keys ∷ key_models ∷ key_state ∷ downstream_keys ∷ request_logs ∷ []

run_schema : Option Schema → M (Unit {0})
run_schema none s = (err database, s)
run_schema (some schema) s = (ok tt, record s { schema = schema })

-- A statement that changes the schema; `none` is one that SQLite refuses.
unfoldable pub exec_schema : (Schema → Option Schema) → M (Unit {0})
unfolding run_schema
exec_schema f = do driver_call; λ s. run_schema (f s.schema) s

pub create_all : List Table → M (Unit {0})
create_all [] = pure tt
create_all (table ∷ rest) =
    let others = create_all rest in
    do exec_schema (λ schema. some (create_table table schema)); others

-- pragma table_info(…)
table_info : Text → M (List Column)
table_info table = do driver_call; λ s. (ok (columns_of table s.schema), s)

-- The rows are read up to the one with the name; the step to a row, or to the end, may fail, and so may
-- the reading of a row.
find_column : Text → Text → List Column → M Bool
find_column table name [] = do
  wrap (codes "iterate table info for " ++ table ++ codes ": ") driver_call
  pure false
find_column table name (column ∷ columns) =
    let rest = find_column table name columns in
    do
      wrap (codes "iterate table info for " ++ table ++ codes ": ") driver_call
      wrap (codes "scan table info for " ++ table ++ codes ": ") driver_call
      if list_eq column.name name then pure true else rest

unless_found : Bool → Text → Column → M (Unit {0})
unless_found true table column = pure tt
unless_found false table column =
    wrap (codes "add " ++ table ++ codes "." ++ column.name ++ codes " column: ")
      (exec_schema (alter_table table column))

pub ensure_column_exists : Text → Column → M (Unit {0})
unfolding table_info find_column unless_found
ensure_column_exists table column = do
  columns ← wrap (codes "read table info for " ++ table ++ codes ": ") (table_info table)
  found ← find_column table column.name columns
  unless_found found table column

abbrev pub added_to_logs : Column
added_to_logs = defined "downstream_key_id" "integer"

abbrev pub added_to_clients : Column
added_to_clients = defined "encrypted_token" "text"

unfoldable pub migrate : M (Unit {0})
unfolding create_all ensure_column_exists
migrate = do
  create_all tables
  ensure_column_exists (codes "request_logs") added_to_logs
  ensure_column_exists (codes "downstream_keys") added_to_clients

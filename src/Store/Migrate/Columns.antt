-- ===== src/Store/Migrate/Columns.antt =====
-- The columns that the SQL of internal/store names are there after `Migrate`.
use atomhub.Prelude.{
  ◌≡◌, refl, ◌∙◌, ap, sym, inl, inr, Bool, true, false, ◌&&◌, List, [], ◌∷◌, Bool-cases, list_eq,
  list_eq_iff, All,
}
use atomhub.Text.{Text, codes}
use atomhub.Server.{Server}
use atomhub.Server.Outcome.{Outcome, Outcome-mono}
use atomhub.Store.Rows.{exists_where}
use atomhub.Schema.{Column, Table, Schema, is_column, has_table, has_column}
use atomhub.Store.Migrate.{
  admin_users, upstream_keys, key_models, key_state, downstream_keys, request_logs, migrate,
}
use atomhub.Store.Migrate.Grew.{Grew}
use atomhub.Store.Migrate.Complete.{IsEarlier, HasAll, IsComplete, migrate-Adds}

-- what the SQL of admin.go selects, inserts, updates or compares
abbrev pub admin_user_columns : List Text
admin_user_columns = codes "id" ∷ codes "username" ∷ codes "password_hash" ∷ []

-- what the SQL of keys.go selects, inserts, updates or compares
abbrev pub upstream_key_columns : List Text
upstream_key_columns =
    codes "id"
    ∷ codes "name"
    ∷ codes "provider"
    ∷ codes "base_url"
    ∷ codes "api_key"
    ∷ codes "enabled"
    ∷ codes "created_at"
    ∷ codes "updated_at"
    ∷ []

-- what the SQL of models.go selects, inserts, updates or compares
abbrev pub key_model_columns : List Text
key_model_columns = codes "id" ∷ codes "key_id" ∷ codes "model" ∷ codes "created_at" ∷ []

-- what the SQL of state.go selects, inserts, updates or compares
abbrev pub key_state_columns : List Text
key_state_columns =
    codes "key_id"
    ∷ codes "status"
    ∷ codes "cooldown_until"
    ∷ codes "consecutive_failures"
    ∷ codes "last_error"
    ∷ codes "last_success_at"
    ∷ codes "last_probe_at"
    ∷ []

-- what the SQL of downstream_keys.go and logs.go selects, inserts, updates or compares
abbrev pub downstream_key_columns : List Text
downstream_key_columns =
    codes "id"
    ∷ codes "name"
    ∷ codes "token_prefix"
    ∷ codes "token_hash"
    ∷ codes "encrypted_token"
    ∷ codes "enabled"
    ∷ codes "last_used_at"
    ∷ codes "request_count"
    ∷ codes "prompt_tokens"
    ∷ codes "completion_tokens"
    ∷ codes "total_tokens"
    ∷ codes "created_at"
    ∷ codes "updated_at"
    ∷ []

-- what the SQL of logs.go and stats.go selects, inserts, updates or compares
abbrev pub request_log_columns : List Text
request_log_columns =
    codes "id"
    ∷ codes "key_id"
    ∷ codes "downstream_key_id"
    ∷ codes "model"
    ∷ codes "prompt_tokens"
    ∷ codes "completion_tokens"
    ∷ codes "total_tokens"
    ∷ codes "latency_ms"
    ∷ codes "status"
    ∷ codes "error_message"
    ∷ codes "created_at"
    ∷ []

abbrev pub named_columns : List (Text × List Text)
named_columns =
    (codes "admin_users", admin_user_columns)
    ∷ (codes "upstream_keys", upstream_key_columns)
    ∷ (codes "key_models", key_model_columns)
    ∷ (codes "key_state", key_state_columns)
    ∷ (codes "downstream_keys", downstream_key_columns)
    ∷ (codes "request_logs", request_log_columns)
    ∷ []

abbrev pub HasNamed : Schema → Text × List Text → Type 0
HasNamed schema table =
    (has_table table.0 schema ≡ true)
    × All (λ (c : Text). has_column table.0 c schema ≡ true) table.1

-- Every table that the stores name is there, with every column that they name of it.
abbrev pub ServesStores : Schema → Type 0
ServesStores schema = All (HasNamed schema) named_columns

abbrev all_among : List Column → List Text → Bool
all_among columns [] = true
all_among columns (c ∷ cs) = exists_where (is_column c) columns && all_among columns cs

module _ (schema : Schema) (name : Text) where
  one_there :
      (columns : List Column) (c : Text)
      → All (λ (d : Column). has_column name d.name schema ≡ true) columns
      → exists_where (is_column c) columns ≡ true
      → has_column name c schema ≡ true
  unfolding exists_where
  one_there [] c h e = cc
  one_there (d ∷ columns) c h e = elim (Bool-cases (is_column c d)) [
    | inl k ↦ sym (ap (λ (x : Text). has_column name x schema) ((list_eq_iff d.name c).0 k)) ∙ h.0
    | inr k ↦ one_there columns c h.1 (rw k at e)
  ]

  All-there :
      (columns : List Column) (cs : List Text)
      → All (λ (d : Column). has_column name d.name schema ≡ true) columns
      → all_among columns cs ≡ true
      → All (λ (c : Text). has_column name c schema ≡ true) cs
  All-there columns [] h e = tt
  All-there columns (c ∷ cs) h e = elim (Bool-cases (exists_where (is_column c) columns)) [
    | inl k ↦ (one_there columns c h k, All-there columns cs h (rw k at e))
    | inr k ↦ let never : false ≡ true = rw k at e in cc
  ]

-- a table of the migration, for the name and the columns that the stores use
named_there :
    (schema : Schema) (t : Table) (cs : List Text)
    → all_among t.columns cs ≡ true
    → HasAll schema t
    → HasNamed schema (t.name, cs)
named_there schema t cs e h = (h.0, All-there schema t.name t.columns cs h.1 e)

complete-ServesStores : (schema : Schema) → IsComplete schema → ServesStores schema
unfolding exists_where list_eq
complete-ServesStores schema (a, (k, (m, (s, (d, (l, end)))))) = (
  named_there schema admin_users admin_user_columns refl a,
  (
    named_there schema upstream_keys upstream_key_columns refl k,
    (
      named_there schema key_models key_model_columns refl m,
      (
        named_there schema key_state key_state_columns refl s,
        (
          named_there schema downstream_keys downstream_key_columns refl d,
          (named_there schema request_logs request_log_columns refl l, tt),
        ),
      ),
    ),
  ),
)

-- On a new file, or one of the earlier version, or what an interrupted migration left of one, a
-- migration that succeeds ends with every table that the stores name and every column of it that they
-- name. Whether it succeeds or fails, it loses no table and no column and changes no row.
pub migrate-ServesStores :
    (s : Server)
    → IsEarlier s.schema
    → Outcome (λ e t. Grew s t) (λ u t. Grew s t × ServesStores t.schema) migrate s
migrate-ServesStores s h =
    Outcome-mono (migrate-Adds s) (λ e t k. k)
      (λ u t (k : Grew s t × (IsEarlier s.schema → IsComplete t.schema)).
        (k.0, complete-ServesStores t.schema (k.1 h)))

-- ===== src/Store/Models.antt =====
-- The models that each key supports: internal/store/models.go. The schema lets a key have a model
-- once.
pub mod Replacement
pub mod Replaced
pub mod Sound
use atomhub.Prelude.{
  ℕ, ◌+◌, Bool, ◌&&◌, ◌||◌, List, [], ◌∷◌, ◌++◌, filter, Option, none, some, ltb, ◌==◌,
  if◌then◌else◌, list_eq,
}
use atomhub.Prelude.Sort.{sort}
use atomhub.Text.{Text}
use atomhub.Text.Order.{sort_texts, text_ltb}
use atomhub.Text.Unique.{unique_ordered}
use atomhub.Types.{KeyModel}
use atomhub.Server.{Server, Tables, M, ◌>>=◌, ◌>>◌, pure, query, exec, transaction, now}
use atomhub.Store.Rows.{delete_where, exists_where}

-- uniqueNonEmpty
unfoldable pub unique_non_empty : List Text → List Text
unique_non_empty values = sort_texts (unique_ordered values)

abbrev pub is_model : ℕ → Text → KeyModel → Bool
is_model key_id model row = (row.key_id == key_id) && list_eq row.model model

abbrev pub new_model : ℕ → ℕ → ℕ → Text → KeyModel
new_model id key_id time model = record {
  id = id;
  key_id = key_id;
  model = model;
  created_at = time;
}

-- insert into key_models …, under `unique(key_id, model)`
unfoldable pub insert_model : ℕ → ℕ → Text → Tables → Option (Unit {0} × Tables)
insert_model key_id time model t =
    let id = t.sequences.key_models + 1 in
    if exists_where (is_model key_id model) t.key_models
    then none
    else some (
      tt,
      record t {
        key_models = t.key_models ++ new_model id key_id time model ∷ [];
        sequences = record t.sequences { key_models = id };
      },
    )

insert_models : ℕ → ℕ → List Text → M (Unit {0})
insert_models key_id time [] = pure tt
insert_models key_id time (model ∷ models) = do
  exec (insert_model key_id time model)
  insert_models key_id time models

unfoldable pub delete_models : ℕ → Tables → Tables
delete_models key_id t = record t {
  key_models = delete_where (λ (r : KeyModel). r.key_id == key_id) t.key_models;
}

replace_rows : ℕ → List Text → M (Unit {0})
replace_rows key_id cleaned = do
  exec (λ t. some (tt, delete_models key_id t))
  time ← now
  insert_models key_id time cleaned

pub replace_for_key : ℕ → List Text → M (Unit {0})
replace_for_key key_id models = transaction (replace_rows key_id (unique_non_empty models))

abbrev pub by_model : KeyModel → KeyModel → Bool
by_model a b = text_ltb a.model b.model

abbrev pub by_model_and_key : KeyModel → KeyModel → Bool
by_model_and_key a b =
    text_ltb a.model b.model || (list_eq a.model b.model && ltb a.key_id b.key_id)

pub list_by_key : ℕ → M (List KeyModel)
list_by_key key_id = query (λ t. sort by_model (filter (λ row. row.key_id == key_id) t.key_models))

unfoldable pub list_all : M (List KeyModel)
list_all = query (λ t. sort by_model_and_key t.key_models)

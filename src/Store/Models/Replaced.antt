-- ===== src/Store/Models/Replaced.antt =====
-- What `ReplaceForKey` of internal/store/models.go leaves, in terms of the names that it was given.
use mathlib.Core.List.Permᴰ as Perms
use atomhub.Prelude.{
  ℕ, ◌≡◌, refl, ◌∙◌, ap, inl, inr, not, ◌&&◌, List, [], ◌∷◌, ◌++◌, filter, ◌==◌, All, Bool-cases,
}
use atomhub.Prelude.Sort.{sort, sort-perm, IsSorted, sort-IsSorted, All-sort}
use atomhub.Text.{Text, is_empty}
use atomhub.Text.Order.{text_ltb, text_ltb_asym, text_ltb_weak, sort_texts}
use atomhub.Text.Unique.{
  IsUnique, IsClean, IsUnique-perm, contains, contains_trimmed, contains-perm, unique_ordered,
  contains-unique_ordered, unique_ordered-IsUnique, unique_ordered-IsClean,
}
use atomhub.Types.{database, KeyModel}
use atomhub.Server.{Server, Tables}
use atomhub.Server.Outcome.{Outcome, Outcome-mono, SameMemory, Untouched, Leaves, next_reading}
use atomhub.Store.Rows.{delete_where}
use atomhub.Store.Models.{unique_non_empty, delete_models, replace_for_key}
use atomhub.Store.Models.Replacement.{rows_for, with_models, replace_for_key-Leaves}

-- everything but the models of the keys
abbrev pub without_models : Tables → Tables
without_models t = record t { key_models = []; sequences = record t.sequences { key_models = 0 } }

-- The rows of the other keys, and behind them one row of the key for each name, with the next ids and the
-- time. The names are those given, trimmed, without the blank ones, each once and in order.
pub record Replaced (k time : ℕ) (models : List Text) (s t : Server) : Type 0 where
  pub names : List Text
  pub rows :
      t.tables.key_models
      ≡ filter (λ (r : KeyModel). not (r.key_id == k)) s.tables.key_models
        ++ rows_for s.tables.sequences.key_models k time names
  pub sorted : IsSorted text_ltb names
  pub once : IsUnique names
  pub clean : All IsClean names
  pub complete : (m : Text) → contains m names ≡ (not (is_empty m) && contains_trimmed m models)
  pub others : without_models t.tables ≡ without_models s.tables
  pub memory : SameMemory s t

delete_where-filter :
    (k : ℕ) (rows : List KeyModel)
    → delete_where (λ (r : KeyModel). r.key_id == k) rows
      ≡ filter (λ (r : KeyModel). not (r.key_id == k)) rows
unfolding delete_where
delete_where-filter k [] = refl
delete_where-filter k (r ∷ rows) = elim (Bool-cases (r.key_id == k)) [
  | inl e ↦ rw e (delete_where-filter k rows)
  | inr e ↦ rw e (ap (◌∷◌ r) (delete_where-filter k rows))
]

left-Replaced :
    (k time : ℕ) (models : List Text) (s t : Server)
    → Leaves (with_models k time (unique_non_empty models) (delete_models k s.tables)) s t
    → Replaced k time models s t
unfolding unique_non_empty sort_texts delete_models
left-Replaced k time models s t h =
    let perm = sort-perm text_ltb (unique_ordered models) in
    record {
      names = sort text_ltb (unique_ordered models);
      rows =
          ap (λ (x : Tables). x.key_models) h.tables
          ∙ ap
              (λ (rows : List KeyModel).
                rows
                ++ rows_for s.tables.sequences.key_models k time
                    (sort text_ltb (unique_ordered models)))
              (delete_where-filter k s.tables.key_models);
      sorted = sort-IsSorted text_ltb text_ltb_asym text_ltb_weak (unique_ordered models);
      once = IsUnique-perm (Perms.symm perm) (unique_ordered-IsUnique models);
      clean = All-sort text_ltb IsClean (unique_ordered models) (unique_ordered-IsClean models);
      complete = λ m. contains-perm m perm ∙ contains-unique_ordered models m;
      others = ap without_models h.tables;
      memory = h.memory;
    }

-- After a success the key has exactly the given models: trimmed, without the empty ones, each once
-- and sorted, as new rows with the next ids, behind the rows of the other keys, which are as they
-- were, like every other table. After a failure no table is changed, and the failure is one of a
-- database call: the inserts never break the schema's constraint.
pub replace_for_key-Replaced :
    (k : ℕ) (models : List Text) (s : Server)
    → Outcome
        (λ e t. (e ≡ database) × Untouched s t)
        (λ u t. Replaced k (next_reading s) models s t)
        (replace_for_key k models)
        s
replace_for_key-Replaced k models s =
    Outcome-mono (replace_for_key-Leaves k models s) (λ e t h. h)
      (λ u t h. left-Replaced k (next_reading s) models s t h)

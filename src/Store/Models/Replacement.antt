-- ===== src/Store/Models/Replacement.antt =====
-- `ReplaceForKey` of internal/store/models.go: a key's models become those given, once each, or stay
-- as they were.
use atomhub.Prelude.Sort.{sort-perm}
use atomhub.Text.Order.{text_ltb, sort_texts}
use mathlib.Core.List.{append_assoc, append-nil}
use mathlib.Core.List.Permᴰ as Perms
use atomhub.Prelude.{
  ℕ, ◌+◌, ◌≡◌, refl, ◌∙◌, sym, inl, inr, false, ◌||◌, List, [], ◌∷◌, ◌++◌, some, arith, ◌==◌,
  list_eq, list_eq_iff, Bool-cases, All, length,
}
use atomhub.Text.{Text}
use atomhub.Text.Unique.{IsUnique, contains, IsUnique-perm, unique_ordered-IsUnique, unique_ordered}
use atomhub.Types.{database, KeyModel}
use atomhub.Server.{Server, Tables}
use atomhub.Server.Outcome.{
  Untouched-with_faults, Outcome, Outcome-bind, Outcome-mono, Outcome-pure, Outcome-exec,
  Outcome-now, Outcome-transaction, SameMemory, Untouched, Leaves, next_reading,
}
use atomhub.Store.Rows.{exists_where, delete_where}
use atomhub.Store.Models.{
  unique_non_empty, is_model, new_model, insert_model, insert_models, delete_models, replace_rows,
  replace_for_key,
}

-- The rows of the models, with the ids that follow `id`.
unfoldable pub rows_for : ℕ → ℕ → ℕ → List Text → List KeyModel
rows_for id key_id time [] = []
rows_for id key_id time (m ∷ ms) =
    record { id = id + 1; key_id = key_id; model = m; created_at = time }
    ∷ rows_for (id + 1) key_id time ms

-- The tables with the models' rows added at the end.
abbrev pub with_models : ℕ → ℕ → List Text → Tables → Tables
with_models key_id time ms t = record t {
  key_models = t.key_models ++ rows_for t.sequences.key_models key_id time ms;
  sequences = record t.sequences { key_models = t.sequences.key_models + length ms };
}

-- The key has none of the models.
abbrev Lacks : ℕ → List KeyModel → List Text → Type 0
Lacks k rows = All (λ m. exists_where (is_model k m) rows ≡ false)

exists_where-append :
    (k time id : ℕ) (m n : Text) (rows : List KeyModel)
    → exists_where (is_model k m) (rows ++ new_model id k time n ∷ [])
      ≡ (exists_where (is_model k m) rows || list_eq n m)
unfolding exists_where
exists_where-append k time id m n [] = ground arith
exists_where-append k time id m n (r ∷ rows) =
    ground (arith, exists_where-append k time id m n rows)

Lacks-append :
    (k time id : ℕ) (n : Text) (rows : List KeyModel) (ms : List Text)
    → contains n ms ≡ false
    → Lacks k rows ms
    → Lacks k (rows ++ new_model id k time n ∷ []) ms
Lacks-append k time id n rows [] u h = tt
Lacks-append k time id n rows (m ∷ ms) u h = (
  ground (arith, exists_where-append k time id m n rows, list_eq_iff n m, list_eq_iff m n),
  Lacks-append k time id n rows ms (ground arith) h.1,
)

insert_one :
    (k time : ℕ) (m : Text) (t : Tables)
    → exists_where (is_model k m) t.key_models ≡ false
    → insert_model k time m t ≡ some (tt, with_models k time (m ∷ []) t)
unfolding insert_model rows_for
insert_one k time m t h = rw h (ground arith)

with_models-cons :
    (k time : ℕ) (m : Text) (ms : List Text) (t : Tables)
    → with_models k time ms (with_models k time (m ∷ []) t) ≡ with_models k time (m ∷ ms) t
unfolding rows_for
with_models-cons k time m ms t = ground (
  arith,
  append_assoc t.key_models (new_model (t.sequences.key_models + 1) k time m ∷ [])
      (rows_for (t.sequences.key_models + 1) k time ms),
)

with_models-nil : (k time : ℕ) (t : Tables) → with_models k time [] t ≡ t
unfolding rows_for
with_models-nil k time t = ground (arith, append-nil t.key_models)

insert_models-Leaves :
    {s : Server} (k time : ℕ) (ms : List Text)
    → IsUnique ms
    → Lacks k s.tables.key_models ms
    → Outcome
        (λ e t. (e ≡ database) × SameMemory s t)
        (λ u t. Leaves (with_models k time ms s.tables) s t)
        (insert_models k time ms)
        s
unfolding insert_models rows_for
insert_models-Leaves {s} k time [] u l = Outcome-pure (record {
  tables = sym (with_models-nil k time s.tables);
  memory = record { inflight = refl; keys_by_model = refl };
})
insert_models-Leaves {s} k time (m ∷ ms) u l = Outcome-bind (
    Outcome-exec _ tt _ (insert_one k time m s.tables l.0)
      (λ fs. (refl, record { inflight = refl; keys_by_model = refl }))
      (λ fs.
        Outcome-mono
          (insert_models-Leaves
            {s = record s { tables = with_models k time (m ∷ []) s.tables; faults = fs }} k time ms
            u.1
            (Lacks-append k time (s.tables.sequences.key_models + 1) m s.tables.key_models ms u.0
              l.1))
          (λ e t h. (h.0, record { inflight = h.1.inflight; keys_by_model = h.1.keys_by_model }))
          (λ v t h. record {
            tables = h.tables ∙ with_models-cons k time m ms s.tables;
            memory = record {
              inflight = h.memory.inflight;
              keys_by_model = h.memory.keys_by_model;
            };
          })))

none_left :
    (k : ℕ) (m : Text) (rows : List KeyModel)
    → exists_where (is_model k m) (delete_where (λ (r : KeyModel). r.key_id == k) rows) ≡ false
unfolding exists_where delete_where
none_left k m [] = refl
none_left k m (r ∷ rows) = elim (Bool-cases (r.key_id == k)) [
  | inl e ↦ rw e (none_left k m rows)
  | inr e ↦ rw (e, exists_where) (ground (arith, e, none_left k m rows))
]

Lacks-deleted :
    (k : ℕ) (rows : List KeyModel) (ms : List Text)
    → Lacks k (delete_where (λ (r : KeyModel). r.key_id == k) rows) ms
Lacks-deleted k rows [] = tt
Lacks-deleted k rows (m ∷ ms) = (none_left k m rows, Lacks-deleted k rows ms)

unique_non_empty-IsUnique : (values : List Text) → IsUnique (unique_non_empty values)
unfolding unique_non_empty sort_texts
unique_non_empty-IsUnique values =
    IsUnique-perm (Perms.symm (sort-perm text_ltb (unique_ordered values)))
      (unique_ordered-IsUnique values)

-- After a success the key has exactly the given models: trimmed, without the empty ones, each once
-- and sorted, as new rows with the next ids, behind the rows of the other keys, which are as they
-- were. After a failure no table is changed, and the failure is one of a database call: the inserts
-- never break the schema's constraint.
pub replace_for_key-Leaves :
    (k : ℕ) (models : List Text) (s : Server)
    → Outcome
        (λ e t. (e ≡ database) × Untouched s t)
        (λ u t.
          Leaves
            (with_models k (next_reading s) (unique_non_empty models) (delete_models k s.tables))
            s
            t)
        (replace_for_key k models)
        s
unfolding replace_for_key replace_rows delete_models
replace_for_key-Leaves k models s =
    Outcome-transaction _ (λ fs. (refl, Untouched-with_faults))
      λ fs. Outcome-bind (
        Outcome-exec _ tt _ refl (λ gs. (refl, Untouched-with_faults))
          λ gs. Outcome-bind (
            Outcome-now λ rs.
              Outcome-mono
                (insert_models-Leaves k (next_reading s) (unique_non_empty models)
                  (unique_non_empty-IsUnique models)
                  (Lacks-deleted k s.tables.key_models (unique_non_empty models)))
                (λ e t h. (
                  h.0,
                  record {
                    tables = refl;
                    memory = record { inflight = h.1.inflight; keys_by_model = h.1.keys_by_model };
                  },
                ))
                (λ v t h. (
                  λ hs. (
                    refl,
                    record {
                      tables = refl;
                      memory = record {
                        inflight = h.memory.inflight;
                        keys_by_model = h.memory.keys_by_model;
                      };
                    },
                  ),
                  λ hs. record {
                    tables = h.tables;
                    memory = record {
                      inflight = h.memory.inflight;
                      keys_by_model = h.memory.keys_by_model;
                    };
                  },
                ))))

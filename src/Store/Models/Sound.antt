-- ===== src/Store/Models/Sound.antt =====
-- The operations of internal/store/models.go keep the tables sound.
use atomhub.Prelude.{ℕ, List, [], ◌∷◌}
use atomhub.Text.{Text}
use atomhub.Server.Invariant.{
  Maintains, Maintains-bind, Maintains-pure, Maintains-query, Maintains-exec, Maintains-change,
  Maintains-transaction, Maintains-now,
}
use atomhub.Store.Sound.{IsSound}
use atomhub.Store.Sound.Statements.{replaced_models-IsSound, insert_model-IsSound}
use atomhub.Store.Models.{insert_models, replace_rows, replace_for_key, list_all}

insert_models-Maintains :
    (k time : ℕ) (models : List Text) → Maintains IsSound (insert_models k time models)
unfolding insert_models
insert_models-Maintains k time [] = Maintains-pure _
insert_models-Maintains k time (model ∷ models) =
    Maintains-bind (Maintains-exec _ (λ t u next e s. insert_model-IsSound s k time model u next e))
      (λ u. insert_models-Maintains k time models)

replace_rows-Maintains : (k : ℕ) (models : List Text) → Maintains IsSound (replace_rows k models)
unfolding replace_rows
replace_rows-Maintains k models =
    Maintains-bind (Maintains-change _ (λ t s. replaced_models-IsSound s k))
      (λ u. Maintains-bind Maintains-now (λ time. insert_models-Maintains k time models))

pub replace_for_key-Maintains :
    (k : ℕ) (models : List Text) → Maintains IsSound (replace_for_key k models)
unfolding replace_for_key
replace_for_key-Maintains k models = Maintains-transaction _ (replace_rows-Maintains k _)

pub list_all-Maintains : Maintains IsSound list_all
unfolding list_all
list_all-Maintains = Maintains-query _

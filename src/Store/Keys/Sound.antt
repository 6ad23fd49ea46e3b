-- ===== src/Store/Keys/Sound.antt =====
-- The operations of internal/store/keys.go keep the tables sound.
use atomhub.Prelude.{ℕ, ◌≡◌, refl, Bool, Option, none, some}
use atomhub.Types.{UpstreamKey}
use atomhub.Server.{exec}
use atomhub.Server.Invariant.{
  Maintains, Maintains-bind, Maintains-pure, Maintains-fail, Maintains-if, Maintains-query,
  Maintains-change, Maintains-driver_call, Maintains-transaction, Maintains-now,
}
use atomhub.Store.Sound.{IsSound}
use atomhub.Store.Sound.Statements.{
  insert_key-IsSound, update_key_row-IsSound, delete_row-IsSound, delete_state-IsSound,
  delete_logs-IsSound, delete_models_of_key-IsSound,
}
use atomhub.Store.Keys.{
  or_key_not_found, get, create, require_rows, written, update_id, update_row, update, set_enabled,
  delete_all, delete, list, list_enabled,
}

or_key_not_found-Maintains : (o : Option UpstreamKey) → Maintains IsSound (or_key_not_found o)
unfolding or_key_not_found
or_key_not_found-Maintains none = Maintains-fail _
or_key_not_found-Maintains (some key) = Maintains-pure _

pub get-Maintains : (id : ℕ) → Maintains IsSound (get id)
unfolding get
get-Maintains id = Maintains-bind (Maintains-query _) (λ o. or_key_not_found-Maintains o)

require_rows-Maintains : (b : Bool) → Maintains IsSound (require_rows b)
unfolding require_rows
require_rows-Maintains b =
    Maintains-bind Maintains-driver_call (λ u. Maintains-if b (Maintains-pure _) (Maintains-fail _))

pub create-Maintains : (key : UpstreamKey) → Maintains IsSound (create key)
unfolding create
create-Maintains key = Maintains-bind Maintains-now (λ time.
    Maintains-bind (Maintains-change _ (λ t s. insert_key-IsSound s key time))
      (λ id. Maintains-bind Maintains-driver_call (λ u. get-Maintains id)))

change-Maintains :
    (id : ℕ) (change : UpstreamKey → UpstreamKey)
    → ((r : UpstreamKey) → (change r).id ≡ r.id)
    → Maintains IsSound (exec (λ t. some (update_id id change t)))
change-Maintains id change keep =
    Maintains-change _ (λ t s. update_key_row-IsSound s id change keep)

update_row-Maintains : (key : UpstreamKey) → Maintains IsSound (update_row key)
unfolding update_row
update_row-Maintains key = Maintains-bind Maintains-now (λ time.
    Maintains-bind (change-Maintains key.id (written key time) (λ r. unfold written in refl))
      (λ b. Maintains-bind (require_rows-Maintains b) (λ u. get-Maintains key.id)))

pub update-Maintains : (key : UpstreamKey) → Maintains IsSound (update key)
unfolding update
update-Maintains key = Maintains-if _ (Maintains-fail _) (update_row-Maintains key)

pub set_enabled-Maintains : (id : ℕ) (enabled : Bool) → Maintains IsSound (set_enabled id enabled)
unfolding set_enabled
set_enabled-Maintains id enabled =
    Maintains-bind Maintains-now
      (λ time. Maintains-bind (change-Maintains id _ (λ r. refl)) (λ b. require_rows-Maintains b))

delete_all-Maintains : (id : ℕ) → Maintains IsSound (delete_all id)
unfolding delete_all
delete_all-Maintains id =
    Maintains-bind (Maintains-change _ (λ t s. delete_models_of_key-IsSound s id)) (λ u.
      Maintains-bind (Maintains-change _ (λ t s. delete_state-IsSound s id)) (λ v.
        Maintains-bind (Maintains-change _ (λ t s. delete_logs-IsSound s id)) (λ w.
          Maintains-bind (Maintains-change _ (λ t s. delete_row-IsSound s id))
            (λ b. require_rows-Maintains b))))

pub delete-Maintains : (id : ℕ) → Maintains IsSound (delete id)
unfolding delete
delete-Maintains id = Maintains-transaction _ (delete_all-Maintains id)

pub list-Maintains : Maintains IsSound list
unfolding list
list-Maintains = Maintains-query _

pub list_enabled-Maintains : Maintains IsSound list_enabled
unfolding list_enabled
list_enabled-Maintains = Maintains-query _

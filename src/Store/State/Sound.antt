-- ===== src/Store/State/Sound.antt =====
-- The operations of internal/store/state.go keep the tables sound.
use atomhub.Prelude.{ℕ, ◌≡◌, Bool, true, false, List, [], ◌∷◌, Option, none, some, refl}
use atomhub.Types.{KeyState, Error}
use atomhub.Server.Invariant.{
  Maintains, Maintains-bind, Maintains-pure, Maintains-fail, Maintains-query, Maintains-change,
  Maintains-now,
}
use atomhub.Store.Sound.{IsSound}
use atomhub.Store.Sound.Statements.{ensure-IsSound, update_key-IsSound}
use atomhub.Store.State.{
  ensure, get, or_not_found, ensure_all, load_candidates, candidates, update_key, mark_success,
  mark_probe_success, record_failure, failed, mark_failure, mark_probe_failure, overview,
}

pub ensure-Maintains : (k : ℕ) → Maintains IsSound (ensure k)
unfolding ensure
ensure-Maintains k = Maintains-change _ (λ t s. ensure-IsSound s k)

update_key-Maintains :
    (k : ℕ) (change : KeyState → KeyState)
    → ((r : KeyState) → (change r).key_id ≡ r.key_id)
    → Maintains IsSound (update_key k change)
unfolding update_key
update_key-Maintains k change keep = Maintains-change _ (λ t s. update_key-IsSound s k change keep)

or_not_found-Maintains : (o : Option KeyState) → Maintains IsSound (or_not_found o)
unfolding or_not_found
or_not_found-Maintains none = Maintains-fail _
or_not_found-Maintains (some row) = Maintains-pure _

pub get-Maintains : (k : ℕ) → Maintains IsSound (get k)
unfolding get
get-Maintains k =
    Maintains-bind (ensure-Maintains k)
      (λ u. Maintains-bind (Maintains-query _) (λ o. or_not_found-Maintains o))

ensure_all-Maintains : (ks : List ℕ) → Maintains IsSound (ensure_all ks)
unfolding ensure_all
ensure_all-Maintains [] = Maintains-pure _
ensure_all-Maintains (k ∷ ks) = Maintains-bind (ensure-Maintains k) (λ u. ensure_all-Maintains ks)

load_candidates-Maintains : (ks : List ℕ) → Maintains IsSound (load_candidates ks)
unfolding load_candidates
load_candidates-Maintains ks = Maintains-bind (ensure_all-Maintains ks) (λ u.
    Maintains-bind (Maintains-query _)
      (λ states. Maintains-bind Maintains-now (λ time. record { at = λ s h. h })))

pub candidates-Maintains : (ks : List ℕ) → Maintains IsSound (candidates ks)
unfolding candidates
candidates-Maintains [] = Maintains-pure _
candidates-Maintains (k ∷ ks) = load_candidates-Maintains (k ∷ ks)

pub mark_success-Maintains : (k : ℕ) → Maintains IsSound (mark_success k)
unfolding mark_success
mark_success-Maintains k =
    Maintains-bind (ensure-Maintains k)
      (λ u. Maintains-bind Maintains-now (λ time. update_key-Maintains k _ (λ r. refl)))

pub mark_probe_success-Maintains : (k : ℕ) → Maintains IsSound (mark_probe_success k)
unfolding mark_probe_success
mark_probe_success-Maintains k =
    Maintains-bind (ensure-Maintains k)
      (λ u. Maintains-bind Maintains-now (λ time. update_key-Maintains k _ (λ r. refl)))

record_failure-Maintains : (b : Bool) (k : ℕ) (e : Error) → Maintains IsSound (record_failure b k e)
unfolding record_failure failed
record_failure-Maintains b k e = Maintains-bind (ensure-Maintains k) (λ u.
    Maintains-bind (get-Maintains k) (λ state.
      Maintains-bind Maintains-now
        (λ time. Maintains-bind Maintains-now (λ stamp. update_key-Maintains k _ (λ r. refl)))))

pub mark_failure-Maintains : (k : ℕ) (e : Error) → Maintains IsSound (mark_failure k e)
unfolding mark_failure
mark_failure-Maintains = record_failure-Maintains false

pub mark_probe_failure-Maintains : (k : ℕ) (e : Error) → Maintains IsSound (mark_probe_failure k e)
unfolding mark_probe_failure
mark_probe_failure-Maintains = record_failure-Maintains true

pub overview-Maintains : Maintains IsSound overview
unfolding overview
overview-Maintains =
    Maintains-bind (Maintains-query _)
      (λ rows. Maintains-bind Maintains-now (λ time. Maintains-pure _))

-- ===== src/Probe/Sound.antt =====
-- The probes of internal/probe/service.go keep the tables sound.
use atomhub.Prelude.{ℕ, List, [], ◌∷◌, Option, none, some}
use atomhub.Text.{Text}
use atomhub.Types.{UpstreamKey, unsupported_provider, Result, ok, err}
use atomhub.Server.{Server}
use atomhub.Server.Invariant.{Maintains, Maintains-bind, Maintains-fail, Maintains-ignore}
use atomhub.Store.Keys
use atomhub.Store.Keys.Sound as KeysSound
use atomhub.Store.Models.Sound.{replace_for_key-Maintains}
use atomhub.Store.State.Sound.{mark_probe_success-Maintains, mark_probe_failure-Maintains}
use atomhub.Store.Sound.{IsSound}
use atomhub.Catalog.Sound.{rebuild-Maintains}
use atomhub.Probe.{
  Providers, ListModels, provider_for, apply_answer, probe_with, probe_key, probe_key_by_id,
  probe_each, probe_listed, probe_all,
}

apply_answer-Maintains : (k : ℕ) (r : Result (List Text)) → Maintains IsSound (apply_answer k r)
unfolding apply_answer
apply_answer-Maintains k (err e) =
    Maintains-bind (Maintains-ignore (mark_probe_failure-Maintains k e)) (λ u. Maintains-fail e)
apply_answer-Maintains k (ok models) =
    Maintains-bind (replace_for_key-Maintains k models)
      (λ u. Maintains-bind (mark_probe_success-Maintains k) (λ v. rebuild-Maintains))

probe_with-Maintains :
    (key : UpstreamKey) (o : Option ListModels) → Maintains IsSound (probe_with key o)
unfolding probe_with
probe_with-Maintains key none =
    Maintains-bind
      (Maintains-ignore (mark_probe_failure-Maintains key.id (unsupported_provider key.provider)))
      (λ u. Maintains-fail (unsupported_provider key.provider))
probe_with-Maintains key (some list_models) = apply_answer-Maintains key.id (list_models key)

module _ (p : Providers) where
  probe_key-Maintains : (key : UpstreamKey) → Maintains IsSound (probe_key p key)
  unfolding probe_key
  probe_key-Maintains key = probe_with-Maintains key (provider_for p key.provider)

  pub probe_key_by_id-Maintains : (id : ℕ) → Maintains IsSound (probe_key_by_id p id)
  unfolding probe_key_by_id
  probe_key_by_id-Maintains id =
      Maintains-bind (KeysSound.get-Maintains id) (λ key. probe_key-Maintains key)

  probe_each-IsSound :
      (keys : List UpstreamKey) (s : Server)
      → IsSound s.tables
      → IsSound (probe_each p keys s).1.tables
  unfolding probe_each
  probe_each-IsSound [] s h = h
  probe_each-IsSound (key ∷ keys) s h =
      probe_each-IsSound keys (probe_key p key s).1 ((probe_key-Maintains key).at s h)

  probe_listed-IsSound :
      (r : Result (List UpstreamKey) × Server)
      → IsSound r.1.tables
      → IsSound (probe_listed p r).1.tables
  unfolding probe_listed
  probe_listed-IsSound (err e, s) h = h
  probe_listed-IsSound (ok keys, s) h = probe_each-IsSound keys s h

  pub probe_all-IsSound : (s : Server) → IsSound s.tables → IsSound (probe_all p s).1.tables
  unfolding probe_all
  probe_all-IsSound s h =
      probe_listed-IsSound (Keys.list_enabled s) (KeysSound.list_enabled-Maintains.at s h)

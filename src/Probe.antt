-- ===== src/Probe.antt =====
-- Probing an upstream key for its models: internal/probe/service.go. A provider's `ListModels` is
-- code of internal/providers and of the network; here it is an argument.
pub mod Effect
pub mod Sound
mod Examples
use atomhub.Prelude.{ℕ, List, [], ◌∷◌, Option, none, some}
use atomhub.Text.{Text}
use atomhub.Types.{
  UpstreamKey, Provider, openai, anthropic, gemini, other, Error, unsupported_provider, Result, ok,
  err,
}
use atomhub.Server.{Server, M, ◌>>=◌, ◌>>◌, pure, fail, ignore, continue}
use atomhub.Store.Keys
use atomhub.Store.Models
use atomhub.Store.State.{mark_probe_success, mark_probe_failure}
use atomhub.Catalog.{rebuild}

abbrev pub ListModels : Type 0
ListModels = UpstreamKey → Result (List Text)

-- the three clients of `Service`; `none` is nil
pub record Providers : Type 0 where
  pub openai : Option ListModels
  pub anthropic : Option ListModels
  pub gemini : Option ListModels

pub provider_for : Providers → Provider → Option ListModels
provider_for s openai = s.openai
provider_for s anthropic = s.anthropic
provider_for s gemini = s.gemini
provider_for s (other p) = none

-- what `ProbeKey` does with the answer of the provider
unfoldable pub apply_answer : ℕ → Result (List Text) → M (Unit {0})
apply_answer key_id (err e) = do ignore (mark_probe_failure key_id e); fail e
apply_answer key_id (ok models) = do
  Models.replace_for_key key_id models
  mark_probe_success key_id
  rebuild

probe_with : UpstreamKey → Option ListModels → M (Unit {0})
probe_with key none = do
  ignore (mark_probe_failure key.id (unsupported_provider key.provider))
  fail (unsupported_provider key.provider)
probe_with key (some list_models) = apply_answer key.id (list_models key)

pub probe_key : Providers → UpstreamKey → M (Unit {0})
unfolding probe_with
probe_key s key = probe_with key (provider_for s key.provider)

pub probe_key_by_id : Providers → ℕ → M (Unit {0})
probe_key_by_id s key_id = do key ← Keys.get key_id; probe_key s key

-- the loop of `ProbeAll`: the results of the keys in turn
probe_each : Providers → List UpstreamKey → Server → List (ℕ × Result (Unit {0})) × Server
probe_each p [] s = ([], s)
probe_each p (key ∷ keys) s =
    let (result, t) = probe_key p key s in
    let (results, u) = probe_each p keys t in ((key.id, result) ∷ results, u)

probe_listed :
    Providers → Result (List UpstreamKey) × Server → List (ℕ × Result (Unit {0})) × Server
probe_listed p (err e, s) = ((0, err e) ∷ [], s)
probe_listed p (ok keys, s) = probe_each p keys s

pub probe_all : Providers → Server → List (ℕ × Result (Unit {0})) × Server
unfolding probe_each probe_listed
probe_all p s = probe_listed p (Keys.list_enabled s)

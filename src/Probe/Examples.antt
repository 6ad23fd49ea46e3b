-- ===== src/Probe/Examples.antt =====
-- A probe of a key of the sample server.
use atomhub.Prelude.{◌≡◌, List, [], ◌∷◌, some, none}
use atomhub.Text.{Text, codes}
use atomhub.Types.{ok}
use atomhub.Server.Outcome.{Outcome}
use atomhub.Samples.{sample, key_one}
use atomhub.Probe.{Providers, probe_key}
use atomhub.Probe.Effect.{Unprobed, Probed, answer_of, probe_key-Probed}

abbrev providers : Providers
providers = record {
  openai = some (λ key. ok (codes "gpt" ∷ codes " gpt-mini " ∷ []));
  anthropic = none;
  gemini = none;
}

probe_key-Probed_example :
    Outcome
      (λ e t. Unprobed (answer_of providers key_one) sample e t)
      (λ u t.
        (models : List Text) × (answer_of providers key_one ≡ ok models) × Probed 1 models sample t)
      (probe_key providers key_one)
      sample
probe_key-Probed_example = probe_key-Probed providers key_one sample

-- ===== src/Store/Examples.antt =====
-- The key, model and log stores on the sample server.
use atomhub.Prelude.{◌≡◌, [], ◌∷◌, some}
use atomhub.Prelude.Int.{pos, negsuc}
use atomhub.Text.{codes}
use atomhub.Types.{database}
use atomhub.Server.Outcome.{Outcome, Untouched, next_reading}
use atomhub.Samples.{sample}
use atomhub.Store.Keys
use atomhub.Store.Keys.Deletion.{IsStored, Gone, Refused, delete-Gone}
use atomhub.Store.Models.{replace_for_key}
use atomhub.Store.Models.Replaced.{Replaced, replace_for_key-Replaced}
use atomhub.Store.Logs.{Entry}

delete-Gone_example :
    Outcome
      (λ e t. Untouched sample t × Refused 1 sample e)
      (λ u t. IsStored 1 sample × Gone 1 sample t)
      (Keys.delete 1)
      sample
delete-Gone_example = delete-Gone 1 sample

replace_for_key-Replaced_example :
    Outcome
      (λ e t. (e ≡ database) × Untouched sample t)
      (λ u t.
        Replaced 1 (next_reading sample) (codes " gpt" ∷ codes "" ∷ codes "gpt" ∷ []) sample t)
      (replace_for_key 1 (codes " gpt" ∷ codes "" ∷ codes "gpt" ∷ []))
      sample
replace_for_key-Replaced_example =
    replace_for_key-Replaced 1 (codes " gpt" ∷ codes "" ∷ codes "gpt" ∷ []) sample

abbrev entry : Entry
entry = record {
  key_id = 1;
  downstream_key_id = some 1;
  model = codes "gpt";
  usage = record { prompt_tokens = pos 3; completion_tokens = negsuc 0; total_tokens = pos 9 };
  latency_ms = 12;
  call_err = some database;
}

-- ===== src/Providers/Examples.antt =====
-- The lists of a client that always answers the same.
use atomhub.Prelude.{◌≡◌, [], ◌∷◌}
use atomhub.Text.{codes}
use atomhub.Types.{ok}
use atomhub.Samples.{key_one}
use atomhub.Providers.{Client, list_openai, list_anthropic, list_gemini}
use atomhub.Providers.Models.{Lists, AreBare, OfOpenai, OfAnthropic, OfGemini, list_models-Lists}

abbrev client : Client
client = record {
  join_path = λ base suffix. ok base;
  with_key = λ url key. ok url;
  fetch = λ endpoint headers. ok (record {
    status = 200;
    body = [];
    names = ok (codes " models/a" ∷ codes "b" ∷ codes "b" ∷ codes "" ∷ []);
  });
}

list_models-Lists_example :
    Lists (OfOpenai client key_one) ◌≡◌ (list_openai client key_one)
    × Lists (OfAnthropic client key_one) ◌≡◌ (list_anthropic client key_one)
    × Lists (OfGemini client key_one) AreBare (list_gemini client key_one)
list_models-Lists_example = list_models-Lists client key_one

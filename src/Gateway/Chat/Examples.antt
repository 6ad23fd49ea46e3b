-- ===== src/Gateway/Chat/Examples.antt =====
-- Requests to the chat API of the sample server.
use atomhub.Prelude.{◌≡◌, true, false, List, [], ◌∷◌, none, some}
use atomhub.Prelude.Int.{pos}
use atomhub.Text.{codes}
use atomhub.Types.{ok, err, message}
use atomhub.Server.Outcome.{Outcome}
use atomhub.Samples.{sample, client_one}
use atomhub.Store.State.{inflight_of}
use atomhub.Store.State.Failure.{Quiet}
use atomhub.Gateway.Api.{ChatMessage, ChatRequest, External}
use atomhub.Gateway.Chat.{choose, handle_chat_completions}
use atomhub.Gateway.Chat.Choice.{IsChoice, IsRow, Refusal, choose-IsChoice}
use atomhub.Gateway.Chat.Inflight.{handle_chat_completions-inflight}

abbrev down : External
down = record {
  join_url = λ base path. ok base;
  with_key = λ url key. ok url;
  post_openai = λ url auth req. err (message (codes "refused"));
  post_anthropic = λ url key payload. err (message (codes "refused"));
  post_gemini = λ url payload. err (message (codes "refused"));
  stream_openai = λ url auth req. err (message (codes "refused"));
  chunk_usage = λ payload. ok none;
  encode_chunk = λ chunk. codes "{}";
  new_uuid = codes "id";
}

abbrev messages : List ChatMessage
messages =
    record { role = codes "system"; content = codes "be brief" }
    ∷ record { role = codes "user"; content = codes "hello" }
    ∷ []

abbrev request : ChatRequest
request = record {
  model = codes "gpt";
  messages = messages;
  temperature = none;
  max_tokens = some (pos 8);
  stream = true;
}

choose-IsChoice_example :
    Outcome
      (λ e t. Quiet sample t × Refusal (1 ∷ 2 ∷ []) sample e)
      (λ v t. IsChoice (1 ∷ 2 ∷ []) v.0 sample × IsRow v.0 v.1 sample × Quiet sample t)
      (choose (1 ∷ 2 ∷ []))
      sample
choose-IsChoice_example = choose-IsChoice (1 ∷ 2 ∷ []) sample

handle_chat_completions-inflight_example :
    inflight_of 1
      (handle_chat_completions down (ok request) (some client_one) (false ∷ []) sample).1
    ≡ inflight_of 1 sample
handle_chat_completions-inflight_example =
    handle_chat_completions-inflight down (ok request) (some client_one) (false ∷ []) sample 1

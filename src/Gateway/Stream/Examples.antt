-- ===== src/Gateway/Stream/Examples.antt =====
-- A stream of an upstream, as the client gets it.
use atomhub.Prelude.{List, [], ◌∷◌, Option, none, some, false}
use atomhub.Prelude.Int.{pos}
use atomhub.Text.{Text, codes}
use atomhub.Types.{Result, ok}
use atomhub.Gateway.Api.{UsageMap}
use atomhub.Gateway.Stream.{relay, new_sse, no_usage}
use atomhub.Gateway.Stream.Delivery.{Delivered, relay-Delivered}

abbrev lines : List Text
lines =
    codes ": ping"
    ∷ codes "data: {\"a\":1}"
    ∷ codes ""
    ∷ codes "data: {\"b\":2}"
    ∷ codes "data: [DONE]"
    ∷ []

abbrev chunk_usage : Text → Result (Option UsageMap)
chunk_usage payload = ok (some ((codes "total_tokens", pos 7) ∷ []))

relay-Delivered_example :
    Delivered chunk_usage none no_usage lines
      (new_sse (false ∷ []))
      (relay chunk_usage none no_usage lines (new_sse (false ∷ [])))
relay-Delivered_example = relay-Delivered chunk_usage none no_usage lines (new_sse (false ∷ []))

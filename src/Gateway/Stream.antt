-- ===== src/Gateway/Stream.antt =====
-- Streamed answers: internal/app/streaming.go. The server-sent events that reach the client are a
-- list of payloads; `breaks` says of each write whether the client is gone.
pub mod Relay
pub mod Meaning
pub mod Breaks
pub mod Delivery
pub mod Clock
mod Examples
use atomhub.Prelude.{
  ℕ, ◌/◌, Bool, true, false, not, ◌&&◌, ◌||◌, List, [], ◌∷◌, ◌++◌, Option, none, some, ltb, ◌==◌,
  if◌then◌else◌, list_eq,
}
use atomhub.Prelude.Int.{ℤ, pos, ltb_ℤ}
use atomhub.Text.{Text, codes, is_empty, trim_space, strip_prefix, has_prefix}
use atomhub.Text.Decimal.{decimal}
use atomhub.Types.{
  provider_text, UpstreamKey, UsageTokens, Provider, openai, anthropic, gemini, other, Error,
  message, Result, ok, err,
}
use atomhub.Server.{Server, M, now}
use atomhub.Gateway.Api.{
  ChatMessage, ChatRequest, ChatChoice, UsageMap, usage_value, ChatResponse, ChunkDelta, ChatChunk,
  StreamReply, External,
}
use atomhub.Gateway.Messages.{is_blank, default_string}
use atomhub.Gateway.Proxy.{
  Answer, bearer, is_success, upstream_error, proxy_anthropic, proxy_gemini, usage_names,
}

-- sseResponseWriter
pub record Sse : Type 0 where
  pub started : Bool
  pub sent : List Text
  pub breaks : List Bool

abbrev pub new_sse : List Bool → Sse
new_sse breaks = record { started = false; sent = []; breaks = breaks }

abbrev pub write_failed : Error
write_failed = message (codes "write failed")

-- WriteData: the headers count as sent even where the write fails
unfoldable pub write_data : Text → Sse → Result (Unit {0}) × Sse
write_data payload s = elim s.breaks [
  | [] ↦ (ok tt, record s { started = true; sent = s.sent ++ payload ∷ [] })
  | b ∷ bs ↦
      if b
      then (err write_failed, record s { started = true; breaks = bs })
      else (ok tt, record s { started = true; sent = s.sent ++ payload ∷ []; breaks = bs })
]

abbrev pub no_usage : UsageTokens
no_usage = record { prompt_tokens = pos 0; completion_tokens = pos 0; total_tokens = pos 0 }

unfoldable pub larger : ℤ → ℤ → ℤ
larger current value = if ltb_ℤ current value then value else current

unfoldable pub merge_usage_tokens : UsageTokens → Option UsageMap → UsageTokens
unfolding larger
merge_usage_tokens current none = current
merge_usage_tokens current (some incoming) = record {
  prompt_tokens = larger current.prompt_tokens (usage_value incoming usage_names.0);
  completion_tokens = larger current.completion_tokens (usage_value incoming usage_names.1);
  total_tokens = larger current.total_tokens (usage_value incoming usage_names.2);
}

abbrev pub done_marker : Text
done_marker = codes "[DONE]"

-- the value of time.Now(), which does not fail
unfoldable pub read_clock : Server → ℕ × Server
read_clock s = elim s.readings [
  | [] ↦ (s.clock, s)
  | t ∷ ts ↦ (t, record s { clock = t; readings = ts })
]

-- What a line of the upstream's stream is.
pub data Line : Type 0 where
  skip done : Line
  payload : Text → Line

-- strings.TrimRight(…, "\r")
trim_returns : Text → Text
trim_returns [] = []
trim_returns (c ∷ s) =
    let rest = trim_returns s in if is_empty rest && (c == 13) then [] else c ∷ rest

of_payload : Text → Line
of_payload p = if is_empty p then skip else if list_eq p done_marker then done else payload p

unfoldable pub classify : Text → Line
unfolding trim_returns of_payload
classify text =
    let line = trim_returns text in
    if is_blank line || has_prefix (codes ":") line
    then skip
    else elim (strip_prefix (codes "data:") line) [
      | none ↦ skip
      | some rest ↦ of_payload (trim_space rest)
    ]

-- What a stream ends with: the usage so far and the error, if there is one.
abbrev pub Ended : Type 0
Ended = (UsageTokens × Option Error) × Sse

abbrev after_write : UsageTokens → Result (Unit {0}) × Sse → Ended
after_write usage (ok u, s) = ((usage, none), s)
after_write usage (err e, s) = ((usage, some e), s)

-- the last write
unfoldable pub write_done : UsageTokens → Sse → Ended
write_done usage s = after_write usage (write_data done_marker s)

module _ (chunk_usage : Text → Result (Option UsageMap)) where
  -- the usage after a payload that may be no chunk
  abbrev pub with_chunk : UsageTokens → Text → UsageTokens
  with_chunk usage p = elim (chunk_usage p) [
    | err e ↦ usage
    | ok incoming ↦ merge_usage_tokens usage incoming
  ]

  -- the loop over the lines, and what follows it
  unfoldable pub relay : Option Text → UsageTokens → List Text → Sse → Ended
  relay failure usage [] s = elim failure [
    | some e ↦ ((usage, some (message e)), s)
    | none ↦ write_done usage s
  ]
  relay failure usage (text ∷ lines) s = elim (classify text) [
    | skip ↦ relay failure usage lines s
    | done ↦ write_done usage s
    | payload p ↦ elim (write_data p s).0 [
      | err e ↦ ((with_chunk usage p, some e), (write_data p s).1)
      | ok u ↦ relay failure (with_chunk usage p) lines (write_data p s).1
    ]
  ]

module _ (ext : External) where
  relay_reply : Sse → StreamReply → Ended
  relay_reply s reply =
      if is_success reply.status
      then relay ext.chunk_usage reply.failure no_usage reply.lines s
      else ((no_usage, some (upstream_error (codes "openai") reply.status reply.body)), s)

  pub stream_openai : UpstreamKey → ChatRequest → Sse → Ended
  unfolding relay_reply
  stream_openai key req s =
      elim (ext.join_url (default_string key.base_url (codes "https://api.openai.com"))
        (codes "/v1/chat/completions")) [
          | err e ↦ ((no_usage, some e), s)
          | ok endpoint ↦
              elim (ext.stream_openai endpoint (bearer key) (record req { stream = true })) [
                | err e ↦ ((no_usage, some e), s)
                | ok reply ↦ relay_reply s reply
              ]
        ]

-- the message and the finish reason that the fallback sends
abbrev pub first_choice : List ChatChoice → ChatMessage × Text
first_choice [] = (record { role = codes "assistant"; content = [] }, codes "stop")
first_choice (c ∷ cs) =
    (c.message, if is_blank c.finish_reason then codes "stop" else c.finish_reason)

chunk : Text → ℕ → Text → ChunkDelta → Option Text → ChatChunk
chunk id created model delta finish_reason = record {
  id = id;
  object = codes "chat.completion.chunk";
  created = created;
  model = model;
  choices = record { index = 0; delta = delta; finish_reason = finish_reason } ∷ [];
}

-- the three writes of the fallback, each after the one before it went through
unfoldable pub write_all : UsageTokens → List Text → Sse → Ended
write_all usage [] s = ((usage, none), s)
write_all usage (p ∷ ps) s = elim (write_data p s).0 [
  | err e ↦ ((usage, some e), (write_data p s).1)
  | ok u ↦ write_all usage ps (write_data p s).1
]

-- The two chunks and the end marker for a full answer.
unfoldable pub fallback_events :
    (ChatChunk → Text) → Text → ℕ → Text → ChatMessage × Text → List Text
unfolding chunk
fallback_events encode id created model (msg, finish) =
    encode (
      chunk id created model
        (record { role = default_string msg.role (codes "assistant"); content = msg.content }) none)
    ∷ encode (chunk id created model (record { role = []; content = [] }) (some finish))
    ∷ done_marker
    ∷ []

-- `created`, or the clock's seconds where the answer has none
created_or_now : ℕ → Server → ℕ × Server
created_or_now created s =
    if created == 0 then (let (time, t) = read_clock s in (time / 1000000000, t)) else (created, s)

-- what `streamFromSingleResponse` does with the result of the proxy
send_answer : (ChatChunk → Text) → ChatRequest → Sse → Result Answer × Server → Ended × Server
unfolding created_or_now
send_answer encode req sse (err e, s) = (((no_usage, some e), sse), s)
send_answer encode req sse (ok (response, usage), s) =
    let (nanos, t) = read_clock s in
    let (created, u) = created_or_now response.created t in
    let id = default_string response.id (codes "chatcmpl-" ++ decimal nanos) in
    let model = default_string response.model req.model in
    (
      write_all usage (fallback_events encode id created model (first_choice response.choices)) sse,
      u,
    )

module _ (ext : External) where
  stream_from_single_response : Provider → UpstreamKey → ChatRequest → Sse → Server → Ended × Server
  unfolding send_answer
  stream_from_single_response anthropic key req sse s =
      send_answer ext.encode_chunk req sse
        (proxy_anthropic ext key (record req { stream = false }) s)
  stream_from_single_response gemini key req sse s =
      send_answer ext.encode_chunk req sse (proxy_gemini ext key (record req { stream = false }) s)
  stream_from_single_response p key req sse s = (
    (
      (
        no_usage,
        some (message (codes "stream fallback unsupported for provider: " ++ provider_text p)),
      ),
      sse,
    ),
    s,
  )

  stream_by : Provider → UpstreamKey → ChatRequest → Sse → Server → Ended × Server
  unfolding stream_from_single_response
  stream_by openai key req sse s = (stream_openai ext key req sse, s)
  stream_by anthropic key req sse s = stream_from_single_response anthropic key req sse s
  stream_by gemini key req sse s = stream_from_single_response gemini key req sse s
  stream_by (other p) key req sse s =
      (((no_usage, some (message (codes "unsupported provider: " ++ p))), sse), s)

  -- The usage, the error and the events; `breaks` is the fate of the writes.
  pub stream_chat_completion : UpstreamKey → ChatRequest → List Bool → Server → Ended × Server
  unfolding stream_by
  stream_chat_completion key req breaks s = stream_by key.provider key req (new_sse breaks) s

-- ===== src/Gateway/Chat.antt =====
-- The handlers of the downstream API in internal/app/handlers_gateway.go. A handler is a function of
-- the request and the state; `Response` is what it writes. The decoded body, the client that
-- `requireGatewayAccess` left in the context, and the fate of the writes to the client are arguments.
pub mod Choice
pub mod Inflight
pub mod Sound
mod Examples
use atomhub.Prelude.{
  ℕ, ◌-◌, ◌/◌, Bool, true, false, ◌||◌, List, [], ◌∷◌, Option, none, some, map, ◌==◌, if◌then◌else◌,
}
use atomhub.Text.{Text, codes}
use atomhub.Text.Order.{sort_texts}
use atomhub.Types.{
  UpstreamKey, KeyCandidate, DownstreamKey, UsageTokens, Error, error_text, Result, ok, err,
}
use atomhub.Server.{Server, M, ◌>>=◌, ◌>>◌, pure, lift, ignore, continue}
use atomhub.Usage
use atomhub.Selector.{Candidate, select}
use atomhub.Catalog.{snapshot, keys_for_model}
use atomhub.Store.Keys
use atomhub.Store.Logs
use atomhub.Store.State.{
  candidates, increment_inflight, decrement_inflight, mark_success, mark_failure,
}
use atomhub.Gateway.Api.{ChatMessage, ChatRequest, ChatResponse, External}
use atomhub.Gateway.Messages.{is_blank}
use atomhub.Gateway.Proxy.{Answer, proxy_chat_completion}
use atomhub.Gateway.Stream.{Ended, no_usage, read_clock, stream_chat_completion}

-- An error with its status, a completion with status 200, or the events of a stream that began.
pub data Response : Type 0 where
  refused : ℕ → Text → Response
  completed : ChatResponse → Response
  streamed : List Text → Response

-- the models of `handleGatewayModels`, sorted
pub handle_gateway_models : Server → List Text
handle_gateway_models s = sort_texts (map (λ (e : Text × List ℕ). e.0) (snapshot s))

abbrev pub to_candidate : KeyCandidate → Candidate
to_candidate c = record { key_id = c.key_id; cooling_down = c.cooling_down; inflight = c.inflight }

-- the candidates, the selection and the key of the selection, with the id selected
unfoldable pub choose : List ℕ → M (ℕ × UpstreamKey)
choose key_ids = do
  states ← candidates key_ids
  selected ← lift (select (map to_candidate states))
  key ← Keys.get selected.key_id
  pure (selected.key_id, key)

-- downstreamKeyIDFromContext
downstream_key_id : Option DownstreamKey → Option ℕ
downstream_key_id none = none
downstream_key_id (some key) = if key.id == 0 then none else some key.id

normalized : UsageTokens → UsageTokens
normalized u =
    let n = Usage.normalize (record {
      prompt_tokens = u.prompt_tokens;
      completion_tokens = u.completion_tokens;
      total_tokens = u.total_tokens;
    }) in
    record {
      prompt_tokens = n.prompt_tokens;
      completion_tokens = n.completion_tokens;
      total_tokens = n.total_tokens;
    }

-- What is known of a request before its upstream answers: the key selected, the client, the model.
pub record Call : Type 0 where
  pub key_id : ℕ
  pub downstream_key_id : Option ℕ
  pub model : Text

mark : ℕ → Option Error → M (Unit {0})
mark key_id none = mark_success key_id
mark key_id (some e) = mark_failure key_id e

-- the log entry and the key's health after a call; their errors are dropped
unfoldable pub settle : Call → UsageTokens → ℕ → Option Error → Server → Server
unfolding mark normalized
settle call tokens latency call_err s =
    let t =
      (ignore
        (Logs.insert (record {
          key_id = call.key_id;
          downstream_key_id = call.downstream_key_id;
          model = call.model;
          usage = normalized tokens;
          latency_ms = latency / 1000000;
          call_err = call_err;
        }))
        s).1 in
    (ignore (mark call.key_id call_err) t).1

abbrev pub bad_gateway : Error → Response
bad_gateway e = refused 502 (error_text e)

-- What `handleChatCompletions` writes after a stream: nothing more once the stream began.
stream_response : Ended → Response
stream_response ((usage, call_err), sse) =
    if sse.started
    then streamed sse.sent
    else elim call_err [ none ↦ streamed sse.sent | some e ↦ bad_gateway e ]

finish_stream : Call → ℕ → Ended × Server → Response × Server
unfolding stream_response
finish_stream call started (ended, s) =
    let (stopped, t) = read_clock s in
    (stream_response ended, settle call ended.0.0 (stopped - started) ended.0.1 t)

finish_proxy : Call → ℕ → Result Answer × Server → Response × Server
finish_proxy call started (err e, s) =
    let (stopped, t) = read_clock s in
    (bad_gateway e, settle call no_usage (stopped - started) (some e) t)
finish_proxy call started (ok (response, usage), s) =
    let (stopped, t) = read_clock s in
    (completed response, settle call usage (stopped - started) none t)

-- `strings.TrimSpace(req.Model) == "" || len(req.Messages) == 0`
lacks_input : ChatRequest → Bool
lacks_input req = is_blank req.model || elim req.messages [ [] ↦ true | m ∷ ms ↦ false ]

module _ (ext : External) where
  -- the part between `IncrementInflight` and the deferred `DecrementInflight`
  pub call_upstream : Call → UpstreamKey → ChatRequest → List Bool → Server → Response × Server
  unfolding finish_stream finish_proxy
  call_upstream call key req breaks s =
      let (started, t) = read_clock s in
      if req.stream
      then finish_stream call started (stream_chat_completion ext key req breaks t)
      else finish_proxy call started (proxy_chat_completion ext key req t)

  with_key :
      Option DownstreamKey
      → ChatRequest
      → List Bool
      → Result (ℕ × UpstreamKey) × Server
      → Response × Server
  unfolding downstream_key_id
  with_key client req breaks (err e, s) = (bad_gateway e, s)
  with_key client req breaks (ok (id, key), s) =
      let (response, t) =
        call_upstream
          (record { key_id = id; downstream_key_id = downstream_key_id client; model = req.model })
          key req breaks (increment_inflight id s).1 in
      (response, (decrement_inflight id t).1)

  with_key_ids :
      Option DownstreamKey → ChatRequest → List Bool → List ℕ → Server → Response × Server
  unfolding with_key
  with_key_ids client req breaks [] s = (refused 400 (codes "no key supports requested model"), s)
  with_key_ids client req breaks (k ∷ ks) s = with_key client req breaks (choose (k ∷ ks) s)

  pub handle_chat_completions :
      Result ChatRequest → Option DownstreamKey → List Bool → Server → Response × Server
  unfolding with_key_ids lacks_input
  handle_chat_completions (err e) client breaks s = (refused 400 (codes "invalid request body"), s)
  handle_chat_completions (ok req) client breaks s =
      if lacks_input req
      then (refused 400 (codes "model and messages are required"), s)
      else with_key_ids client req breaks (keys_for_model req.model s) s

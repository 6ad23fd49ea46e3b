-- ===== src/Gateway/Chat/Inflight.antt =====
-- The counter of calls in flight around `handleChatCompletions`.
use atomhub.Prelude.{
  ℕ, ◌≡◌, refl, ◌∙◌, ap, Bool, true, false, List, [], ◌∷◌, Option, none, some, arith, if◌then◌else◌,
  Bool-cases, inl, inr,
}
use atomhub.Types.{UpstreamKey, DownstreamKey, UsageTokens, Error, Result, ok, err}
use atomhub.Server.{Server}
use atomhub.Server.Outcome.{Outcome-mono}
use atomhub.Server.Keeps.{IsTimed, after}
use atomhub.Store.Logs
use atomhub.Store.Logs.Insertion.{insert-Logged}
use atomhub.Store.State.{
  count, inflight_of, increment_inflight, mark_success, mark_failure, record_failure,
}
use atomhub.Store.State.Inflight.{increment_inflight_lem, decrement_inflight_lem}
use atomhub.Store.State.Failure.{record_failure-Failed, mark_success-Changed}
use atomhub.Catalog.{keys_for_model}
use atomhub.Gateway.Api.{ChatRequest, External}
use atomhub.Gateway.Proxy.{Answer, proxy_chat_completion}
use atomhub.Gateway.Proxy.Clock.{proxy_chat_completion-Keeps}
use atomhub.Gateway.Stream.{Ended, read_clock, stream_chat_completion}
use atomhub.Gateway.Stream.Clock.{read_clock-IsTimed, stream_chat_completion-IsTimed}
use atomhub.Gateway.Chat.{
  Response, Call, downstream_key_id, choose, mark, settle, finish_stream, finish_proxy,
  call_upstream, with_key, with_key_ids, lacks_input, handle_chat_completions,
}
use atomhub.Gateway.Chat.Choice.{choose-IsChoice}

-- The counters are those of the state given.
abbrev SameCounts : Server → Server → Type 0
SameCounts s t = t.inflight ≡ s.inflight

counts_of : (s t : Server) → IsTimed s t → SameCounts s t
counts_of s t h = ap (λ (r : Server). r.inflight) h

mark-SameCounts : (k : ℕ) (e : Option Error) (s : Server) → SameCounts s (mark k e s).1
unfolding mark mark_failure
mark-SameCounts k none s = after (SameCounts s) (mark_success k) s (
    Outcome-mono (mark_success-Changed k s) (λ e t q. ap (λ (r : Server). r.inflight) q.rest)
      (λ v t c. ap (λ (r : Server). r.inflight) c.1))
mark-SameCounts k (some e) s = after (SameCounts s) (record_failure false k e) s (
    Outcome-mono (record_failure-Failed false k e s)
      (λ x t q. ap (λ (r : Server). r.inflight) q.rest)
      (λ v t c. ap (λ (r : Server). r.inflight) c.1.1))

insert-SameCounts : (entry : Logs.Entry) (s : Server) → SameCounts s (Logs.insert entry s).1
insert-SameCounts entry s = after (SameCounts s) (Logs.insert entry) s (
    Outcome-mono (insert-Logged entry s) (λ x t q. q.1.memory.inflight)
      (λ v t q. q.1.memory.inflight))

settle-SameCounts :
    (call : Call) (u : UsageTokens) (latency : ℕ) (e : Option Error) (s : Server)
    → SameCounts s (settle call u latency e s)
unfolding settle
settle-SameCounts call u latency e s = mark-SameCounts call.key_id e _ ∙ insert-SameCounts _ s

clock-SameCounts : (s : Server) → SameCounts s (read_clock s).1
clock-SameCounts s = counts_of s (read_clock s).1 (read_clock-IsTimed s s refl)

finish_stream-SameCounts :
    (call : Call) (started : ℕ) (r : Ended × Server)
    → SameCounts r.1 (finish_stream call started r).1
unfolding finish_stream
finish_stream-SameCounts call started (ended, s) =
    settle-SameCounts call _ _ _ (read_clock s).1 ∙ clock-SameCounts s

finish_proxy-SameCounts :
    (call : Call) (started : ℕ) (r : Result Answer × Server)
    → SameCounts r.1 (finish_proxy call started r).1
unfolding finish_proxy
finish_proxy-SameCounts call started (err e, s) =
    settle-SameCounts call _ _ _ (read_clock s).1 ∙ clock-SameCounts s
finish_proxy-SameCounts call started (ok (response, usage), s) =
    settle-SameCounts call _ _ _ (read_clock s).1 ∙ clock-SameCounts s

either-SameCounts :
    (s : Server) (x y : Response × Server) (b : Bool)
    → SameCounts s x.1
    → SameCounts s y.1
    → SameCounts s (if b then x else y).1
either-SameCounts s x y true h k = h
either-SameCounts s x y false h k = k

module _ (ext : External) where
  call_upstream-SameCounts :
      (call : Call) (key : UpstreamKey) (req : ChatRequest) (breaks : List Bool) (s : Server)
      → SameCounts s (call_upstream ext call key req breaks s).1
  unfolding call_upstream
  call_upstream-SameCounts call key req breaks s =
      either-SameCounts s (finish_stream call (read_clock s).0 streamed)
        (finish_proxy call (read_clock s).0 proxied) req.stream
        (finish_stream-SameCounts call _ streamed
          ∙ counts_of t streamed.1 (stream_chat_completion-IsTimed t ext key req breaks t refl)
          ∙ clock-SameCounts s)
        (finish_proxy-SameCounts call _ proxied
          ∙ counts_of t proxied.1 ((proxy_chat_completion-Keeps ext t key req).at t refl)
          ∙ clock-SameCounts s)
    where
      t : Server
      t = (read_clock s).1

      streamed : Ended × Server
      streamed = stream_chat_completion ext key req breaks t

      proxied : Result Answer × Server
      proxied = proxy_chat_completion ext key req t

  with_key-inflight :
      (client : Option DownstreamKey) (req : ChatRequest) (breaks : List Bool)
      (r : Result (ℕ × UpstreamKey) × Server) (j : ℕ)
      → inflight_of j (with_key ext client req breaks r).1 ≡ inflight_of j r.1
  unfolding with_key
  with_key-inflight client req breaks (err e, s) j = refl
  with_key-inflight client req breaks (ok (id, key), s) j =
      let call : Call = record {
        key_id = id;
        downstream_key_id = downstream_key_id client;
        model = req.model;
      } in
      let called = (increment_inflight id s).1 in
      let u = (call_upstream ext call key req breaks called).1 in
      let same = call_upstream-SameCounts call key req breaks called in
      let here : inflight_of id u ≡ _ =
        ap (λ (m : List (ℕ × ℕ)). count m id) same ∙ increment_inflight_lem id id s in
      let there : inflight_of j u ≡ _ =
        ap (λ (m : List (ℕ × ℕ)). count m j) same ∙ increment_inflight_lem id j s in
      decrement_inflight_lem id j u ∙ ground (arith, here, there)

  choose-inflight : (ids : List ℕ) (s : Server) → SameCounts s (choose ids s).1
  choose-inflight ids s = after (SameCounts s) (choose ids) s (
      Outcome-mono (choose-IsChoice ids s) (λ e t q. ap (λ (r : Server). r.inflight) q.0.rest)
        (λ v t h. ap (λ (r : Server). r.inflight) h.2.rest))

  with_key_ids-inflight :
      (client : Option DownstreamKey) (req : ChatRequest) (breaks : List Bool) (ids : List ℕ)
      (s : Server) (j : ℕ)
      → inflight_of j (with_key_ids ext client req breaks ids s).1 ≡ inflight_of j s
  unfolding with_key_ids
  with_key_ids-inflight client req breaks [] s j = refl
  with_key_ids-inflight client req breaks (k ∷ ks) s j =
      with_key-inflight client req breaks (choose (k ∷ ks) s) j
      ∙ ap (λ (m : List (ℕ × ℕ)). count m j) (choose-inflight (k ∷ ks) s)

  -- A request to the chat API leaves the counter of calls in flight of every key as it was, whatever
  -- it answers: the body is bad, no key is found, the upstream refuses, the stream breaks or it
  -- succeeds, with or without failing calls of the database.
  pub handle_chat_completions-inflight :
      (r : Result ChatRequest) (client : Option DownstreamKey) (breaks : List Bool) (s : Server)
      (j : ℕ)
      → inflight_of j (handle_chat_completions ext r client breaks s).1 ≡ inflight_of j s
  unfolding handle_chat_completions
  handle_chat_completions-inflight (err e) client breaks s j = refl
  handle_chat_completions-inflight (ok req) client breaks s j =
      elim (Bool-cases (lacks_input req)) [
        | inl e ↦ rw e refl
        | inr e ↦ rw e (with_key_ids-inflight client req breaks (keys_for_model req.model s) s j)
      ]

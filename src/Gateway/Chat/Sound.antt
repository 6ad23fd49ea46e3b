-- ===== src/Gateway/Chat/Sound.antt =====
-- A request to the chat API keeps the tables sound.
use atomhub.Prelude.{
  ℕ, refl, ap, sym, Bool, true, false, List, [], ◌∷◌, Option, none, some, if◌then◌else◌, leb,
  Bool-cases, inl, inr,
}
use mathlib.Core.Path.{subst}
use atomhub.Types.{UpstreamKey, DownstreamKey, UsageTokens, Error, Result, ok, err}
use atomhub.Server.{Server}
use atomhub.Server.Keeps.{IsTimed}
use atomhub.Server.Invariant.{Maintains, Maintains-bind, Maintains-lift, Maintains-pure}
use atomhub.Store.Sound.{IsSound}
use atomhub.Store.Keys.Sound as KeysSound
use atomhub.Store.Logs.Sound.{insert-Maintains}
use atomhub.Store.State.{increment_inflight, decrement_inflight, inflight_of}
use atomhub.Store.State.Sound.{candidates-Maintains, mark_success-Maintains, mark_failure-Maintains}
use atomhub.Catalog.{keys_for_model}
use atomhub.Gateway.Api.{ChatRequest, External}
use atomhub.Gateway.Proxy.{Answer, proxy_chat_completion}
use atomhub.Gateway.Proxy.Clock.{proxy_chat_completion-Keeps}
use atomhub.Gateway.Stream.{Ended, read_clock, stream_chat_completion}
use atomhub.Gateway.Stream.Clock.{read_clock-IsTimed, stream_chat_completion-IsTimed}
use atomhub.Gateway.Chat.{
  Response, Call, choose, mark, settle, finish_stream, finish_proxy, call_upstream, with_key,
  with_key_ids, lacks_input, handle_chat_completions,
}

abbrev Kept : Server → Type 0
Kept s = IsSound s.tables

timed-Kept : (s t : Server) → IsTimed s t → Kept s → Kept t
timed-Kept s t h k = subst IsSound (sym (ap (λ (r : Server). r.tables) h)) k

choose-Maintains : (ids : List ℕ) → Maintains IsSound (choose ids)
unfolding choose
choose-Maintains ids = Maintains-bind (candidates-Maintains ids) (λ states.
    Maintains-bind (Maintains-lift _) (λ selected.
      Maintains-bind (KeysSound.get-Maintains selected.key_id) (λ key. Maintains-pure _)))

mark-Kept : (k : ℕ) (e : Option Error) (s : Server) → Kept s → Kept (mark k e s).1
unfolding mark
mark-Kept k none s h = (mark_success-Maintains k).at s h
mark-Kept k (some e) s h = (mark_failure-Maintains k e).at s h

settle-Kept :
    (call : Call) (u : UsageTokens) (latency : ℕ) (e : Option Error) (s : Server)
    → Kept s
    → Kept (settle call u latency e s)
unfolding settle
settle-Kept call u latency e s h = mark-Kept call.key_id e _ ((insert-Maintains _).at s h)

clock-Kept : (s : Server) → Kept s → Kept (read_clock s).1
clock-Kept s = timed-Kept s (read_clock s).1 (read_clock-IsTimed s s refl)

finish_stream-Kept :
    (call : Call) (started : ℕ) (r : Ended × Server)
    → Kept r.1
    → Kept (finish_stream call started r).1
unfolding finish_stream
finish_stream-Kept call started (ended, s) h = settle-Kept call _ _ _ _ (clock-Kept s h)

finish_proxy-Kept :
    (call : Call) (started : ℕ) (r : Result Answer × Server)
    → Kept r.1
    → Kept (finish_proxy call started r).1
unfolding finish_proxy
finish_proxy-Kept call started (err e, s) h = settle-Kept call _ _ _ _ (clock-Kept s h)
finish_proxy-Kept call started (ok (response, usage), s) h =
    settle-Kept call _ _ _ _ (clock-Kept s h)

either-Kept :
    (b : Bool) (x y : Response × Server) → Kept x.1 → Kept y.1 → Kept (if b then x else y).1
either-Kept true x y h k = h
either-Kept false x y h k = k

decremented-Kept : (id : ℕ) (s : Server) → Kept s → Kept (decrement_inflight id s).1
unfolding decrement_inflight
decremented-Kept id s h = elim (Bool-cases (leb (inflight_of id s) 1)) [
  | inl e ↦ rw e h
  | inr e ↦ rw e h
]

module _ (ext : External) where
  call_upstream-Kept :
      (call : Call) (key : UpstreamKey) (req : ChatRequest) (breaks : List Bool) (s : Server)
      → Kept s
      → Kept (call_upstream ext call key req breaks s).1
  unfolding call_upstream
  call_upstream-Kept call key req breaks s h =
      let t = (read_clock s).1 in
      let k = clock-Kept s h in
      let streamed = stream_chat_completion ext key req breaks t in
      let proxied = proxy_chat_completion ext key req t in
      either-Kept req.stream (finish_stream call (read_clock s).0 streamed)
        (finish_proxy call (read_clock s).0 proxied)
        (finish_stream-Kept call _ streamed
          (timed-Kept t streamed.1 (stream_chat_completion-IsTimed t ext key req breaks t refl) k))
        (finish_proxy-Kept call _ proxied
          (timed-Kept t proxied.1 ((proxy_chat_completion-Keeps ext t key req).at t refl) k))

  with_key-Kept :
      (client : Option DownstreamKey) (req : ChatRequest) (breaks : List Bool)
      (r : Result (ℕ × UpstreamKey) × Server)
      → Kept r.1
      → Kept (with_key ext client req breaks r).1
  unfolding with_key increment_inflight
  with_key-Kept client req breaks (err e, s) h = h
  with_key-Kept client req breaks (ok (id, key), s) h =
      decremented-Kept id _ (call_upstream-Kept _ key req breaks (increment_inflight id s).1 h)

  with_key_ids-Kept :
      (client : Option DownstreamKey) (req : ChatRequest) (breaks : List Bool) (ids : List ℕ)
      (s : Server)
      → Kept s
      → Kept (with_key_ids ext client req breaks ids s).1
  unfolding with_key_ids
  with_key_ids-Kept client req breaks [] s h = h
  with_key_ids-Kept client req breaks (k ∷ ks) s h =
      with_key-Kept client req breaks (choose (k ∷ ks) s) ((choose-Maintains (k ∷ ks)).at s h)

  pub handle_chat_completions-Kept :
      (r : Result ChatRequest) (client : Option DownstreamKey) (breaks : List Bool) (s : Server)
      → IsSound s.tables
      → IsSound (handle_chat_completions ext r client breaks s).1.tables
  unfolding handle_chat_completions
  handle_chat_completions-Kept (err e) client breaks s h = h
  handle_chat_completions-Kept (ok req) client breaks s h =
      either-Kept (lacks_input req) _ _ h
        (with_key_ids-Kept client req breaks (keys_for_model req.model s) s h)

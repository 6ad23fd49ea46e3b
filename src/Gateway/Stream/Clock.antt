-- ===== src/Gateway/Stream/Clock.antt =====
-- A streamed answer reads the clock and changes nothing else of the shared state.
use atomhub.Prelude.{ℕ, Bool, false, List, [], ◌∷◌, Bool-cases, inl, inr, ◌==◌}
use atomhub.Text.{Text}
use atomhub.Types.{UpstreamKey, Provider, openai, anthropic, gemini, other, Result, ok, err}
use atomhub.Server.{Server}
use atomhub.Server.Keeps.{IsTimed}
use atomhub.Gateway.Api.{ChatRequest, ChatChunk, External}
use atomhub.Gateway.Proxy.{Answer, proxy_anthropic, proxy_gemini}
use atomhub.Gateway.Proxy.Clock.{proxy_anthropic-Keeps, proxy_gemini-Keeps}
use atomhub.Gateway.Stream.{
  Sse, new_sse, read_clock, created_or_now, send_answer, stream_from_single_response, stream_by,
  stream_chat_completion,
}

module _ (s₀ : Server) where
  pub read_clock-IsTimed : (s : Server) → IsTimed s₀ s → IsTimed s₀ (read_clock s).1
  unfolding read_clock
  read_clock-IsTimed s h =
      elim s.readings
        as (λ l.
          let r : ℕ × Server = elim l [
            | [] ↦ (s.clock, s)
            | t ∷ ts ↦ (t, record s { clock = t; readings = ts })
          ] in
          IsTimed s₀ r.1) [ [] ↦ h | t ∷ ts ↦ h ]

  created_or_now-IsTimed :
      (created : ℕ) (s : Server) → IsTimed s₀ s → IsTimed s₀ (created_or_now created s).1
  unfolding created_or_now
  created_or_now-IsTimed created s h = elim (Bool-cases (created == 0)) [
    | inl e ↦ rw e (read_clock-IsTimed s h)
    | inr e ↦ rw e h
  ]

  send_answer-IsTimed :
      (encode : ChatChunk → Text) (req : ChatRequest) (sse : Sse) (r : Result Answer × Server)
      → IsTimed s₀ r.1
      → IsTimed s₀ (send_answer encode req sse r).1
  unfolding send_answer
  send_answer-IsTimed encode req sse (err e, s) h = h
  send_answer-IsTimed encode req sse (ok (response, usage), s) h =
      created_or_now-IsTimed response.created (read_clock s).1 (read_clock-IsTimed s h)

  module _ (ext : External) where
    single-IsTimed :
        (p : Provider) (key : UpstreamKey) (req : ChatRequest) (sse : Sse) (s : Server)
        → IsTimed s₀ s
        → IsTimed s₀ (stream_from_single_response ext p key req sse s).1
    unfolding stream_from_single_response
    single-IsTimed openai key req sse s h = h
    single-IsTimed anthropic key req sse s h =
        send_answer-IsTimed ext.encode_chunk req sse
          (proxy_anthropic ext key (record req { stream = false }) s)
          ((proxy_anthropic-Keeps ext s₀ key (record req { stream = false })).at s h)
    single-IsTimed gemini key req sse s h =
        send_answer-IsTimed ext.encode_chunk req sse
          (proxy_gemini ext key (record req { stream = false }) s)
          ((proxy_gemini-Keeps ext s₀ key (record req { stream = false })).at s h)
    single-IsTimed (other p) key req sse s h = h

    by-IsTimed :
        (p : Provider) (key : UpstreamKey) (req : ChatRequest) (sse : Sse) (s : Server)
        → IsTimed s₀ s
        → IsTimed s₀ (stream_by ext p key req sse s).1
    unfolding stream_by
    by-IsTimed openai key req sse s h = h
    by-IsTimed anthropic key req sse s h = single-IsTimed anthropic key req sse s h
    by-IsTimed gemini key req sse s h = single-IsTimed gemini key req sse s h
    by-IsTimed (other p) key req sse s h = h

    pub stream_chat_completion-IsTimed :
        (key : UpstreamKey) (req : ChatRequest) (breaks : List Bool) (s : Server)
        → IsTimed s₀ s
        → IsTimed s₀ (stream_chat_completion ext key req breaks s).1
    unfolding stream_chat_completion
    stream_chat_completion-IsTimed key req breaks s h =
        by-IsTimed key.provider key req (new_sse breaks) s h

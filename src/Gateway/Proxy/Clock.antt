-- ===== src/Gateway/Proxy/Clock.antt =====
-- A call of an upstream without streaming reads the clock and changes nothing.
use atomhub.Types.{UpstreamKey, Provider, openai, anthropic, gemini, other}
use atomhub.Server.{Server}
use atomhub.Server.Keeps.{Keeps, Keeps-bind, Keeps-lift, Keeps-pure, Keeps-fail, Keeps-now, IsTimed}
use atomhub.Gateway.Api.{ChatRequest, External}
use atomhub.Gateway.Proxy.{
  now_unix, proxy_openai, proxy_anthropic, proxy_gemini, by_provider, proxy_chat_completion,
}

module _ (ext : External) (s₀ : Server) where
  now_unix-Keeps : Keeps (IsTimed s₀) now_unix
  unfolding now_unix
  now_unix-Keeps = Keeps-bind (Keeps-now s₀) λ t. Keeps-pure _

  proxy_openai-Keeps :
      (key : UpstreamKey) (req : ChatRequest) → Keeps (IsTimed s₀) (proxy_openai ext key req)
  unfolding proxy_openai
  proxy_openai-Keeps key req =
      Keeps-bind (Keeps-lift _)
        λ a. Keeps-bind (Keeps-lift _) λ b. Keeps-bind (Keeps-lift _) λ c. Keeps-pure _

  pub proxy_anthropic-Keeps :
      (key : UpstreamKey) (req : ChatRequest) → Keeps (IsTimed s₀) (proxy_anthropic ext key req)
  unfolding proxy_anthropic
  proxy_anthropic-Keeps key req = Keeps-bind (Keeps-lift _) λ a.
      Keeps-bind (Keeps-lift _)
        λ b. Keeps-bind (Keeps-lift _) λ c. Keeps-bind now_unix-Keeps λ d. Keeps-pure _

  pub proxy_gemini-Keeps :
      (key : UpstreamKey) (req : ChatRequest) → Keeps (IsTimed s₀) (proxy_gemini ext key req)
  unfolding proxy_gemini
  proxy_gemini-Keeps key req = Keeps-bind (Keeps-lift _) λ a. Keeps-bind (Keeps-lift _) λ u.
      Keeps-bind (Keeps-lift _)
        λ b. Keeps-bind (Keeps-lift _) λ c. Keeps-bind now_unix-Keeps λ d. Keeps-pure _

  by_provider-Keeps :
      (p : Provider) (key : UpstreamKey) (req : ChatRequest)
      → Keeps (IsTimed s₀) (by_provider ext p key req)
  unfolding by_provider
  by_provider-Keeps openai key req = proxy_openai-Keeps key req
  by_provider-Keeps anthropic key req = proxy_anthropic-Keeps key req
  by_provider-Keeps gemini key req = proxy_gemini-Keeps key req
  by_provider-Keeps (other p) key req = Keeps-fail _

  pub proxy_chat_completion-Keeps :
      (key : UpstreamKey) (req : ChatRequest)
      → Keeps (IsTimed s₀) (proxy_chat_completion ext key req)
  unfolding proxy_chat_completion
  proxy_chat_completion-Keeps key req = by_provider-Keeps key.provider key req

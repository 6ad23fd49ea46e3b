-- ===== src/Gateway/Proxy.antt =====
-- One call of an upstream without streaming: the proxies of internal/app/handlers_gateway.go. A
-- failure has no response and no usage beside it.
pub mod Clock
use atomhub.Prelude.{
  ℕ, zero, suc, ◌/◌, Bool, true, false, not, ◌&&◌, ◌||◌, List, [], ◌∷◌, ◌++◌, Option, none, some,
  map, filter, leb, ltb, ◌==◌, if◌then◌else◌, list_eq, ◌+◌, ◌%◌,
}
use atomhub.Prelude.Int.{ℤ, pos, add64, eqb_ℤ}
use atomhub.Text.{Text, codes, is_empty, trim_space, to_lower, join, has_prefix}
use atomhub.Text.Decimal.{decimal}
use atomhub.Types.{
  UpstreamKey, UsageTokens, Provider, openai, anthropic, gemini, other, Error, message, Result, ok,
  err,
}
use atomhub.Server.{Server, M, ◌>>=◌, ◌>>◌, pure, fail, lift, now}
use atomhub.Gateway.Api.{
  ChatMessage, ChatRequest, ChatChoice, UsageMap, usage_value, ChatResponse, AnthropicReply,
  AnthropicPayload, GeminiReply, GeminiPayload, Reply, External,
}
use atomhub.Gateway.Messages.{
  newline, is_blank, split_system_messages, coalesce_max_tokens, default_string,
}

-- `fmt.Errorf("… upstream returned %d: %s", …)`
abbrev pub upstream_error : Text → ℕ → Text → Error
upstream_error name status body =
    message (name ++ (codes " upstream returned " ++ (decimal status ++ (codes ": " ++ body))))

abbrev pub is_success : ℕ → Bool
is_success status = not (ltb status 200 || leb 300 status)

-- The status test and the parsing that the three proxies have in common.
unfoldable pub read_reply : {A : Type 0} → Text → Reply A → Result A
read_reply name reply =
    if is_success reply.status
    then reply.parsed
    else err (upstream_error name reply.status reply.body)

-- `time.Now().Unix()`
now_unix : M ℕ
now_unix = do time ← now; pure (time / 1000000000)

abbrev pub usage_names : Text × Text × Text
usage_names = (codes "prompt_tokens", codes "completion_tokens", codes "total_tokens")

abbrev pub usage_of : UsageMap → UsageTokens
usage_of m = record {
  prompt_tokens = usage_value m usage_names.0;
  completion_tokens = usage_value m usage_names.1;
  total_tokens = usage_value m usage_names.2;
}

abbrev pub usage_map : ℤ → ℤ → ℤ → UsageMap
usage_map p c t = (usage_names.0, p) ∷ (usage_names.1, c) ∷ (usage_names.2, t) ∷ []

abbrev pub Answer : Type 0
Answer = ChatResponse × UsageTokens

abbrev pub bearer : UpstreamKey → Text
bearer key = codes "Bearer " ++ key.api_key

anthropic_payload : ChatRequest → AnthropicPayload
anthropic_payload req =
    let (system, messages) = split_system_messages req.messages in
    record {
      model = req.model;
      messages = messages;
      max_tokens = coalesce_max_tokens req.max_tokens (pos 1024);
      system = if is_empty system then none else some system;
      temperature = req.temperature;
    }

pub anthropic_text : AnthropicReply → Text
anthropic_text reply = join newline (
    map (λ (item : Text × Text). item.1)
      (filter (λ (item : Text × Text). list_eq item.0 (codes "text") && not (is_blank item.1))
        reply.content))

assistant : Text → Text → List ChatChoice
assistant text finish =
    record {
      index = 0;
      message = record { role = codes "assistant"; content = text };
      finish_reason = finish;
    }
    ∷ []

anthropic_answer : ChatRequest → AnthropicReply → ℕ → Answer
unfolding anthropic_text assistant
anthropic_answer req parsed created =
    let total = add64 parsed.input_tokens parsed.output_tokens in
    let finish =
      if list_eq parsed.stop_reason (codes "max_tokens") then codes "length" else codes "stop" in
    (
      record {
        id = parsed.id;
        object = codes "chat.completion";
        created = created;
        model = default_string parsed.model req.model;
        choices = assistant (anthropic_text parsed) finish;
        usage = usage_map parsed.input_tokens parsed.output_tokens total;
      },
      record {
        prompt_tokens = parsed.input_tokens;
        completion_tokens = parsed.output_tokens;
        total_tokens = total;
      },
    )

-- the role and the text of a message for Gemini
gemini_content : ChatMessage → Text × Text
gemini_content msg =
    (if list_eq msg.role (codes "assistant") then codes "model" else codes "user", msg.content)

gemini_payload : ChatRequest → GeminiPayload
unfolding gemini_content
gemini_payload req =
    let (system, messages) = split_system_messages req.messages in
    let contents = map gemini_content messages in
    record {
      contents = if is_empty system then contents else (codes "user", system) ∷ contents;
      temperature = req.temperature;
      max_output_tokens = req.max_tokens;
    }

-- strings.Contains
contains_text : Text → Text → Bool
contains_text part [] = has_prefix part []
contains_text part (c ∷ s) = has_prefix part (c ∷ s) || contains_text part s

-- the text and the finish reason of the first candidate
first_candidate : List (Text × List Text) → Text × Text
unfolding contains_text
first_candidate [] = ([], codes "stop")
first_candidate ((reason, parts) ∷ rest) = (
  join newline (filter (λ part. not (is_blank part)) parts),
  if contains_text (codes "max") (to_lower reason) then codes "length" else codes "stop",
)

gemini_total : GeminiReply → ℤ
gemini_total parsed =
    if eqb_ℤ parsed.total_token_count (pos 0)
    then add64 parsed.prompt_token_count parsed.candidates_token_count
    else parsed.total_token_count

gemini_answer : Text → ChatRequest → GeminiReply → ℕ → Answer
unfolding first_candidate gemini_total assistant
gemini_answer id req parsed created =
    let (text, finish) = first_candidate parsed.candidates in
    let usage =
      usage_map parsed.prompt_token_count parsed.candidates_token_count (gemini_total parsed) in
    (
      record {
        id = id;
        object = codes "chat.completion";
        created = created;
        model = req.model;
        choices = assistant text finish;
        usage = usage;
      },
      record {
        prompt_tokens = parsed.prompt_token_count;
        completion_tokens = parsed.candidates_token_count;
        total_tokens = gemini_total parsed;
      },
    )

module _ (ext : External) where
  pub proxy_openai : UpstreamKey → ChatRequest → M Answer
  proxy_openai key req = do
    endpoint ← lift (
        ext.join_url (default_string key.base_url (codes "https://api.openai.com"))
          (codes "/v1/chat/completions"))
    reply ← lift (ext.post_openai endpoint (bearer key) req)
    parsed ← lift (read_reply (codes "openai") reply)
    pure (parsed, usage_of parsed.usage)

  pub proxy_anthropic : UpstreamKey → ChatRequest → M Answer
  unfolding anthropic_payload anthropic_answer now_unix
  proxy_anthropic key req = do
    endpoint ← lift (
        ext.join_url (default_string key.base_url (codes "https://api.anthropic.com"))
          (codes "/v1/messages"))
    reply ← lift (ext.post_anthropic endpoint key.api_key (anthropic_payload req))
    parsed ← lift (read_reply (codes "anthropic") reply)
    created ← now_unix
    pure (anthropic_answer req parsed created)

  pub proxy_gemini : UpstreamKey → ChatRequest → M Answer
  unfolding gemini_payload gemini_answer now_unix
  proxy_gemini key req = do
    endpoint ← lift (
        ext.join_url
          (default_string key.base_url (codes "https://generativelanguage.googleapis.com"))
          (codes "/v1beta/models/" ++ (req.model ++ codes ":generateContent")))
    url ← lift (ext.with_key endpoint key.api_key)
    reply ← lift (ext.post_gemini url (gemini_payload req))
    parsed ← lift (read_reply (codes "gemini") reply)
    created ← now_unix
    pure (gemini_answer ext.new_uuid req parsed created)

  by_provider : Provider → UpstreamKey → ChatRequest → M Answer
  by_provider openai key req = proxy_openai key req
  by_provider anthropic key req = proxy_anthropic key req
  by_provider gemini key req = proxy_gemini key req
  by_provider (other p) key req = fail (message (codes "unsupported provider: " ++ p))

  pub proxy_chat_completion : UpstreamKey → ChatRequest → M Answer
  unfolding by_provider
  proxy_chat_completion key req = by_provider key.provider key req

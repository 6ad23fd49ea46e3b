-- ===== src/Gateway/Api.antt =====
-- The messages of the downstream API, internal/app/api_types.go, and what the handlers take from
-- outside the program: the network, url parsing, JSON and identifiers.
use atomhub.Prelude.{ℕ, Bool, List, [], ◌∷◌, Option, if◌then◌else◌, list_eq}
use atomhub.Prelude.Int.{ℤ, pos}
use atomhub.Text.{Text}
use atomhub.Types.{Result}

pub record ChatMessage : Type 0 where
  pub role : Text
  pub content : Text

-- A temperature is only handed on: it is kept as its text.
pub record ChatRequest : Type 0 where
  pub model : Text
  pub messages : List ChatMessage
  pub temperature : Option Text
  pub max_tokens : Option ℤ
  pub stream : Bool

pub record ChatChoice : Type 0 where
  pub index : ℕ
  pub message : ChatMessage
  pub finish_reason : Text

-- map[string]int64: a name that is not there has 0.
abbrev pub UsageMap : Type 0
UsageMap = List (Text × ℤ)

unfoldable pub usage_value : UsageMap → Text → ℤ
usage_value [] name = pos 0
usage_value ((n, v) ∷ rest) name = if list_eq n name then v else usage_value rest name

pub record ChatResponse : Type 0 where
  pub id : Text
  pub object : Text
  pub created : ℕ
  pub model : Text
  pub choices : List ChatChoice
  pub usage : UsageMap

pub record ChunkDelta : Type 0 where
  pub role : Text
  pub content : Text

pub record ChunkChoice : Type 0 where
  pub index : ℕ
  pub delta : ChunkDelta
  pub finish_reason : Option Text

pub record ChatChunk : Type 0 where
  pub id : Text
  pub object : Text
  pub created : ℕ
  pub model : Text
  pub choices : List ChunkChoice

-- the anonymous struct of `proxyAnthropic`; a content item is its type and its text
pub record AnthropicReply : Type 0 where
  pub id : Text
  pub model : Text
  pub input_tokens : ℤ
  pub output_tokens : ℤ
  pub content : List (Text × Text)
  pub stop_reason : Text

pub record AnthropicPayload : Type 0 where
  pub model : Text
  pub messages : List ChatMessage
  pub max_tokens : ℤ
  pub system : Option Text
  pub temperature : Option Text

-- the anonymous struct of `proxyGemini`: a candidate is its finish reason and its parts
pub record GeminiReply : Type 0 where
  pub candidates : List (Text × List Text)
  pub prompt_token_count : ℤ
  pub candidates_token_count : ℤ
  pub total_token_count : ℤ

-- `contents` are pairs of a role and a text
pub record GeminiPayload : Type 0 where
  pub contents : List (Text × Text)
  pub temperature : Option Text
  pub max_output_tokens : Option ℤ

-- An answer of an upstream: the status, the body, and the body as JSON.
pub record Reply (A : Type 0) : Type 0 where
  pub status : ℕ
  pub body : Text
  pub parsed : Result A

-- An answer that is read line by line: the status, the body as one text, its lines, and the error
-- that ends the reading, if one does.
pub record StreamReply : Type 0 where
  pub status : ℕ
  pub body : Text
  pub lines : List Text
  pub failure : Option Text

-- What is not code of the program: `url.Parse` with `path.Join`, the query of a url, the HTTP client
-- for each kind of request (endpoint, key, payload), JSON of chunks, `uuid.NewString`.
pub record External : Type 0 where
  pub join_url : Text → Text → Result Text
  pub with_key : Text → Text → Result Text
  pub post_openai : Text → Text → ChatRequest → Result (Reply ChatResponse)
  pub post_anthropic : Text → Text → AnthropicPayload → Result (Reply AnthropicReply)
  pub post_gemini : Text → GeminiPayload → Result (Reply GeminiReply)
  pub stream_openai : Text → Text → ChatRequest → Result StreamReply
  pub chunk_usage : Text → Result (Option UsageMap)
  pub encode_chunk : ChatChunk → Text
  pub new_uuid : Text

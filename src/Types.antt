-- ===== src/Types.antt =====
-- The shared data of internal/types/types.go, with the errors of every package as one type.
-- Row ids are the positive integers that SQLite hands out. A time is the instant that the program
-- stores, in nanoseconds since 1970.
use atomhub.Prelude.{ℕ, Bool, Option, ◌++◌}
use atomhub.Prelude.Int.{ℤ}
use atomhub.Text.{Text, codes}

-- `other` is any string but the three constants.
pub data Provider : Type 0 where
  openai anthropic gemini : Provider
  other : Text → Provider

-- `unset` is the empty string, the zero value.
pub data KeyStatus : Type 0 where
  unset healthy degraded cooling_down disabled : KeyStatus

pub record UpstreamKey : Type 0 where
  pub id : ℕ
  pub name : Text
  pub provider : Provider
  pub base_url : Text
  pub api_key : Text
  pub enabled : Bool
  pub created_at : ℕ
  pub updated_at : ℕ

pub record KeyModel : Type 0 where
  pub id : ℕ
  pub key_id : ℕ
  pub model : Text
  pub created_at : ℕ

pub record KeyState : Type 0 where
  pub key_id : ℕ
  pub status : KeyStatus
  pub cooldown_until : Option ℕ
  pub consecutive_failures : ℕ
  pub last_error : Text
  pub last_success_at : Option ℕ
  pub last_probe_at : Option ℕ

pub record DownstreamKey : Type 0 where
  pub id : ℕ
  pub name : Text
  pub token_prefix : Text
  pub token_hash : Text
  pub encrypted_token : Text
  pub enabled : Bool
  pub last_used_at : Option ℕ
  pub request_count : ℕ
  pub prompt_tokens : ℤ
  pub completion_tokens : ℤ
  pub total_tokens : ℤ
  pub created_at : ℕ
  pub updated_at : ℕ

pub record KeyCandidate : Type 0 where
  pub key_id : ℕ
  pub status : KeyStatus
  pub cooling_down : Bool
  pub cooldown_until : Option ℕ
  pub inflight : ℕ

pub record UsageTokens : Type 0 where
  pub prompt_tokens : ℤ
  pub completion_tokens : ℤ
  pub total_tokens : ℤ

pub record RequestLog : Type 0 where
  pub id : ℕ
  pub key_id : ℕ
  pub downstream_key_id : Option ℕ
  pub model : Text
  pub usage : UsageTokens
  pub latency_ms : ℕ
  pub status : Text
  pub error_message : Text
  pub created_at : ℕ

pub record HealthOverview : Type 0 where
  pub total : ℕ
  pub healthy : ℕ
  pub degraded : ℕ
  pub cooling_down : ℕ
  pub disabled : ℕ

pub record ModelTokenStat : Type 0 where
  pub model : Text
  pub prompt_tokens : ℤ
  pub completion_tokens : ℤ
  pub total_tokens : ℤ
  pub request_count : ℕ

pub record TokenSummary : Type 0 where
  pub prompt_tokens : ℤ
  pub completion_tokens : ℤ
  pub total_tokens : ℤ
  pub request_count : ℕ

-- The sentinel errors, `database` for a call of the database driver that fails, `constraint` for a
-- statement that breaks a constraint of the schema, and `message` for any other.
pub data Error : Type 0 where
  key_not_found state_not_found downstream_key_not_found no_healthy_keys : Error
  unsupported_provider : Provider → Error
  invalid_credentials database constraint : Error
  message : Text → Error

pub data Result {ℓ} (A : Type ℓ) : Type ℓ where
  ok : A → Result A
  err : Error → Result A

abbrev pub provider_text : Provider → Text
provider_text openai = codes "openai"
provider_text anthropic = codes "anthropic"
provider_text gemini = codes "gemini"
provider_text (other t) = t

-- `err.Error()`
unfoldable pub error_text : Error → Text
error_text key_not_found = codes "key not found"
error_text state_not_found = codes "key state not found"
error_text downstream_key_not_found = codes "downstream key not found"
error_text no_healthy_keys = codes "no healthy keys available"
error_text (unsupported_provider p) = codes "unsupported provider: " ++ provider_text p
error_text invalid_credentials = codes "invalid credentials"
error_text database = codes "database error"
error_text constraint = codes "constraint failed"
error_text (message t) = t

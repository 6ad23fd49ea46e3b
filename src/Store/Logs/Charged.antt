-- ===== src/Store/Logs/Charged.antt =====
-- What `Insert` of internal/store/logs.go writes, column by column.
use atomhub.Prelude.{ℕ, ◌+◌, ◌≡◌, true, [], ◌∷◌, ◌++◌, Option, none, some, if◌then◌else◌}
use mathlib.Core.Option
use atomhub.Prelude.Int.{ℤ, pos, negsuc, ◌+ℤ◌}
use atomhub.Text.{Text, codes}
use atomhub.Types.{Error, error_text, UsageTokens, DownstreamKey, RequestLog}
use atomhub.Server.{Server, Tables}
use atomhub.Server.Outcome.{Outcome, SameMemory, next_reading}
use atomhub.Store.Stats.{fits_int64}
use atomhub.Store.Logs.{Entry}
use atomhub.Store.Logs.Insertion.{charged, client, is_charged}

-- a count that is not below 0
abbrev pub at_least_0 : ℤ → ℤ
at_least_0 (pos n) = pos n
at_least_0 (negsuc n) = pos 0

-- The columns that say how a call ended.
pub data HasEnded : Option Error → Text → Text → Type 0 where
  succeeded : HasEnded none (codes "ok") []
  failed : (e : Error) → HasEnded (some e) (codes "error") (error_text e)

-- The row of the log that the entry asks for.
pub record IsRowOf (entry : Entry) (time : ℕ) (row : RequestLog) : Type 0 where
  pub key_id : row.key_id ≡ entry.key_id
  pub downstream_key_id : row.downstream_key_id ≡ entry.downstream_key_id
  pub model : row.model ≡ entry.model
  pub prompt_tokens : row.usage.prompt_tokens ≡ at_least_0 entry.usage.prompt_tokens
  pub completion_tokens : row.usage.completion_tokens ≡ at_least_0 entry.usage.completion_tokens
  pub total_tokens : row.usage.total_tokens ≡ at_least_0 entry.usage.total_tokens
  pub latency_ms : row.latency_ms ≡ entry.latency_ms
  pub created_at : row.created_at ≡ time
  pub ended : HasEnded entry.call_err row.status row.error_message

-- The client's row with one request more.
abbrev pub with_request : UsageTokens → ℕ → DownstreamKey → DownstreamKey
with_request u time key = record {
  id = key.id;
  name = key.name;
  token_prefix = key.token_prefix;
  token_hash = key.token_hash;
  encrypted_token = key.encrypted_token;
  enabled = key.enabled;
  last_used_at = some time;
  request_count = key.request_count + 1;
  prompt_tokens = key.prompt_tokens +ℤ at_least_0 u.prompt_tokens;
  completion_tokens = key.completion_tokens +ℤ at_least_0 u.completion_tokens;
  total_tokens = key.total_tokens +ℤ at_least_0 u.total_tokens;
  created_at = key.created_at;
  updated_at = time;
}

-- The row of the client that is charged, if there is one.
abbrev pub charged_row : Option ℕ → Tables → Option DownstreamKey
charged_row none t = none
charged_row (some d) t = client d t

-- The three totals of the row, if there is one, are int64s.
pub data InRange : Option DownstreamKey → Type 0 where
  no_row : InRange none
  in_row :
      (key : DownstreamKey)
      → fits_int64 key.prompt_tokens ≡ true
      → fits_int64 key.completion_tokens ≡ true
      → fits_int64 key.total_tokens ≡ true
      → InRange (some key)

-- What the client with an id reads as, where the one charged is c.
abbrev pub after_request :
    UsageTokens → ℕ → Option ℕ → ℕ → Option DownstreamKey → Option DownstreamKey
after_request u time c j row = if is_charged j c then Option.map (with_request u time) row else row

-- One log row more at the end, under the next id; one request more for the client that is charged;
-- every other client and the other tables as they were.
pub record Inserted (entry : Entry) (s : Server) (id : ℕ) (t : Server) : Type 0 where
  pub next : id ≡ s.tables.sequences.request_logs + 1
  pub row : RequestLog
  pub row_id : row.id ≡ id
  pub row_of : IsRowOf entry (next_reading s) row
  pub logs : t.tables.request_logs ≡ s.tables.request_logs ++ row ∷ []
  pub clients :
      (j : ℕ)
      → client j t.tables
        ≡ after_request entry.usage
            (next_reading s)
            (charged entry.downstream_key_id)
            j
            (client j s.tables)
  pub in_range : InRange (charged_row (charged entry.downstream_key_id) t.tables)
  pub keys : t.tables.upstream_keys ≡ s.tables.upstream_keys
  pub models : t.tables.key_models ≡ s.tables.key_models
  pub states : t.tables.key_state ≡ s.tables.key_state
  pub memory : SameMemory s t

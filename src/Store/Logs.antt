-- ===== src/Store/Logs.antt =====
-- The request log and the clients' totals: internal/store/logs.go. A total is modelled as long as it is
-- an int64. Beyond that SQLite keeps a floating-point number, which the stores cannot scan any more:
-- that is not modelled, and what is shown of the totals asks for the range.
pub mod Charged
pub mod Insertion
pub mod Sound
use atomhub.Prelude.{
  ℕ, zero, suc, ◌+◌, Bool, true, false, List, [], ◌∷◌, ◌++◌, Option, none, some, ltb, ◌==◌,
  if◌then◌else◌, take,
}
use atomhub.Prelude.Int.{ℤ, pos, ◌+ℤ◌, ltb_ℤ}
use atomhub.Prelude.Sort.{sort}
use atomhub.Text.{Text, codes}
use atomhub.Types.{UsageTokens, RequestLog, DownstreamKey, Error, error_text}
use atomhub.Server.{
  Server, Tables, M, ◌>>=◌, ◌>>◌, pure, driver_call, query, exec, transaction, now,
}
use atomhub.Store.Rows.{update_where}

-- maxInt64
unfoldable pub max_int64 : ℤ → ℤ → ℤ
max_int64 v low = if ltb_ℤ v low then low else v

-- the counts as they are written
unfoldable pub written_usage : UsageTokens → UsageTokens
unfolding max_int64
written_usage u = record {
  prompt_tokens = max_int64 u.prompt_tokens (pos 0);
  completion_tokens = max_int64 u.completion_tokens (pos 0);
  total_tokens = max_int64 u.total_tokens (pos 0);
}

abbrev pub status_text : Option Error → Text
status_text none = codes "ok"
status_text (some e) = codes "error"

abbrev pub message_text : Option Error → Text
message_text none = []
message_text (some e) = error_text e

-- What a call of `Insert` is given.
pub record Entry : Type 0 where
  pub key_id : ℕ
  pub downstream_key_id : Option ℕ
  pub model : Text
  pub usage : UsageTokens
  pub latency_ms : ℕ
  pub call_err : Option Error

abbrev pub log_row : Entry → ℕ → ℕ → RequestLog
log_row entry id time = record {
  id = id;
  key_id = entry.key_id;
  downstream_key_id = entry.downstream_key_id;
  model = entry.model;
  usage = written_usage entry.usage;
  latency_ms = entry.latency_ms;
  status = status_text entry.call_err;
  error_message = message_text entry.call_err;
  created_at = time;
}

unfoldable pub insert_log : Entry → ℕ → Tables → ℕ × Tables
insert_log entry time t =
    let id = t.sequences.request_logs + 1 in
    (
      id,
      record t {
        request_logs = t.request_logs ++ log_row entry id time ∷ [];
        sequences = record t.sequences { request_logs = id };
      },
    )

abbrev pub has_id : ℕ → DownstreamKey → Bool
has_id id key = key.id == id

-- One more request in a client's row: the statement that `Insert` and `RecordUsage` share.
unfoldable pub count_request : UsageTokens → ℕ → DownstreamKey → DownstreamKey
count_request u time key = record key {
  request_count = key.request_count + 1;
  prompt_tokens = key.prompt_tokens +ℤ (written_usage u).prompt_tokens;
  completion_tokens = key.completion_tokens +ℤ (written_usage u).completion_tokens;
  total_tokens = key.total_tokens +ℤ (written_usage u).total_tokens;
  last_used_at = some time;
  updated_at = time;
}

unfoldable pub count_client : UsageTokens → ℕ → ℕ → Tables → Tables
count_client u time id t = record t {
  downstream_keys = update_where (has_id id) (count_request u time) t.downstream_keys;
}

-- `downstreamKeyID != nil && *downstreamKeyID > 0`
record_client : UsageTokens → ℕ → Option ℕ → M (Unit {0})
record_client u time none = pure tt
record_client u time (some zero) = pure tt
record_client u time (some (suc n)) = exec (λ t. some (tt, count_client u time (suc n) t))

insert_rows : Entry → ℕ → M ℕ
insert_rows entry created_at = do
  id ← exec (λ t. some (insert_log entry created_at t))
  driver_call
  record_client entry.usage created_at entry.downstream_key_id
  pure id

pub insert : Entry → M ℕ
insert entry = do created_at ← now; transaction (insert_rows entry created_at)

abbrev pub newer : RequestLog → RequestLog → Bool
newer a b = ltb b.id a.id

-- `limit` is an int: 0 and less ask for 50
unfoldable pub list_recent : ℕ → M (List RequestLog)
list_recent limit = query (λ t. take (if limit == 0 then 50 else limit) (sort newer t.request_logs))

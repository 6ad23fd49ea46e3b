-- ===== src/Samples.antt =====
-- A small server on which the statements of this library are tried.
use atomhub.Prelude.{true, false, [], ◌∷◌, none, some}
use atomhub.Prelude.Int.{pos}
use atomhub.Text.{codes}
use atomhub.Types.{
  UpstreamKey, KeyModel, KeyState, DownstreamKey, RequestLog, openai, anthropic, degraded,
}
use atomhub.Server.{Server, empty_server, no_tables, no_sequences}

abbrev pub key_one : UpstreamKey
key_one = record {
  id = 1;
  name = codes "main";
  provider = openai;
  base_url = [];
  api_key = codes "sk-1";
  enabled = true;
  created_at = 5;
  updated_at = 5;
}

abbrev pub key_two : UpstreamKey
key_two = record {
  id = 2;
  name = codes "spare";
  provider = anthropic;
  base_url = [];
  api_key = codes "sk-2";
  enabled = false;
  created_at = 6;
  updated_at = 6;
}

abbrev pub state_one : KeyState
state_one = record {
  key_id = 1;
  status = degraded;
  cooldown_until = some 40;
  consecutive_failures = 2;
  last_error = codes "timeout";
  last_success_at = none;
  last_probe_at = some 9;
}

abbrev pub client_one : DownstreamKey
client_one = record {
  id = 1;
  name = codes "team";
  token_prefix = codes "atom_abc";
  token_hash = codes "hash";
  encrypted_token = codes "secret";
  enabled = true;
  last_used_at = none;
  request_count = 0;
  prompt_tokens = pos 0;
  completion_tokens = pos 0;
  total_tokens = pos 0;
  created_at = 7;
  updated_at = 7;
}

abbrev pub gpt : KeyModel
gpt = record { id = 1; key_id = 1; model = codes "gpt"; created_at = 8 }

abbrev pub sample : Server
sample = record empty_server {
  tables = record no_tables {
    upstream_keys = key_one ∷ key_two ∷ [];
    key_models = gpt ∷ [];
    key_state = state_one ∷ [];
    downstream_keys = client_one ∷ [];
    sequences = record no_sequences { upstream_keys = 2; key_models = 1; downstream_keys = 1 };
  };
  inflight = (1, 2) ∷ [];
  keys_by_model = (codes "gpt", 1 ∷ []) ∷ [];
  faults = false ∷ false ∷ [];
  readings = 50 ∷ 60 ∷ [];
}

abbrev pub log_one : RequestLog
log_one = record {
  id = 1;
  key_id = 1;
  downstream_key_id = some 1;
  model = codes "gpt";
  usage = record { prompt_tokens = pos 3; completion_tokens = pos 4; total_tokens = pos 7 };
  latency_ms = 12;
  status = codes "ok";
  error_message = [];
  created_at = 9;
}

abbrev pub log_two : RequestLog
log_two = record log_one { id = 2; model = codes "claude"; status = codes "error" }

-- The sample server after three requests.
abbrev pub busy : Server
busy = record sample {
  tables = record sample.tables {
    request_logs = log_one ∷ log_two ∷ record log_one { id = 3; downstream_key_id = none } ∷ [];
    sequences = record sample.tables.sequences { request_logs = 3 };
  };
}

-- ===== src/Admin/Reports.antt =====
-- The handlers that only report in internal/app/handlers_admin.go: the dashboard, the keys, the
-- models, the health and the requests. They write nothing but missing rows of key_state.
pub mod Requests
pub mod Sound
mod Examples
use atomhub.Prelude.{
  ℕ, suc, ◌+◌, Bool, true, false, not, ◌&&◌, ◌||◌, List, [], ◌∷◌, ◌++◌, Option, none, some, ltb,
  leb, ◌==◌, if◌then◌else◌, find?, elem, list_eq,
}
use atomhub.Prelude.Int.{ℤ, pos, add64}
use atomhub.Prelude.Sort.{sort}
use atomhub.Text.{Text, codes, is_empty, trim_space}
use atomhub.Text.Decimal.{parse_int}
use atomhub.Text.Order.{text_ltb, sort_texts}
use atomhub.Text.Unique.{contains}
use atomhub.Types.{
  UpstreamKey, KeyModel, KeyState, KeyStatus, unset, healthy, DownstreamKey, RequestLog,
  ModelTokenStat, TokenSummary, HealthOverview, provider_text, ok,
}
use atomhub.Server.{Server, M, ◌>>=◌, ◌>>◌, pure, now}
use atomhub.Store.Keys
use atomhub.Store.Keys.{has_id}
use atomhub.Store.State
use atomhub.Store.Models
use atomhub.Store.Logs
use atomhub.Store.DownstreamKeys
use atomhub.Store.Stats.{token_stats}
use atomhub.Admin.Answers.{Handler, or_refuse, always_500}
use atomhub.Admin.Keys.{AdminKeyItem, or_zero, map_admin_key}

-- adminHealthSummary
pub record HealthSummary : Type 0 where
  pub healthy_keys : ℕ
  pub unhealthy_keys : ℕ
  pub total_keys : ℕ

-- adminModelItem
pub record AdminModelItem : Type 0 where
  pub model : Text
  pub provider : Text
  pub key_count : ℕ
  pub healthy_keys : ℕ

-- adminRequestLogItem
pub record RequestItem : Type 0 where
  pub id : ℕ
  pub key_id : ℕ
  pub key_label : Text
  pub provider : Text
  pub downstream_key_id : Option ℕ
  pub downstream_key_name : Text
  pub model : Text
  pub prompt_tokens : ℤ
  pub completion_tokens : ℤ
  pub total_tokens : ℤ
  pub latency_ms : ℕ
  pub status : Text
  pub error_message : Text
  pub created_at : ℕ

-- adminRequestsSummary
pub record RequestsSummary : Type 0 where
  pub request_count : ℕ
  pub error_count : ℕ
  pub prompt_tokens : ℤ
  pub completion_tokens : ℤ
  pub total_tokens : ℤ

-- adminRequestsFilters
pub record RequestsFilters : Type 0 where
  pub model : Text
  pub models : List Text

-- An error with its status, or what the five handlers write, with 200.
pub data Report : Type 0 where
  refused : ℕ → Text → Report
  dashboard : List ModelTokenStat → TokenSummary → HealthSummary → Report
  keys : List AdminKeyItem → Report
  models : List AdminModelItem → Report
  health : HealthSummary → List AdminKeyItem → Report
  requests : List RequestItem → RequestsSummary → RequestsFilters → Report

abbrev pub health_summary : HealthOverview → HealthSummary
health_summary o = record {
  healthy_keys = o.healthy;
  unhealthy_keys = o.degraded + o.cooling_down + o.disabled;
  total_keys = o.total;
}

pub handle_dashboard : Handler Report
handle_dashboard s =
    or_refuse refused always_500
      (λ stats t.
        or_refuse refused always_500
          (λ overview u. (dashboard stats.0 stats.1 (health_summary overview), u))
          (State.overview t))
      (token_stats s)

-- `state, _ := a.stateStore.Get(…)`: the zero value on an error
state_or_zero : ℕ → M KeyState
state_or_zero key_id s = (ok (or_zero (State.get key_id s).0), (State.get key_id s).1)

-- the time of the newest of the requests that used the key
last_used : ℕ → List RequestLog → Option ℕ
last_used key_id [] = none
last_used key_id (row ∷ rows) =
    let later = last_used key_id rows in if row.key_id == key_id then some row.created_at else later

-- the loop over the keys
key_items : List RequestLog → List UpstreamKey → M (List AdminKeyItem)
key_items recent [] = pure []
key_items recent (key ∷ rest) = do
  state ← state_or_zero key.id
  items ← key_items recent rest
  pure (map_admin_key key state (last_used key.id recent) ∷ items)

abbrev lower_id : AdminKeyItem → AdminKeyItem → Bool
lower_id a b = ltb a.id b.id

pub list_admin_keys : M (List AdminKeyItem)
unfolding key_items state_or_zero last_used
list_admin_keys = do
  all ← Keys.list
  recent ← Logs.list_recent 500
  items ← key_items recent all
  pure (sort lower_id items)

pub handle_list_keys : Handler Report
handle_list_keys s = or_refuse refused always_500 (λ items t. (keys items, t)) (list_admin_keys s)

pub handle_health : Handler Report
handle_health s =
    or_refuse refused always_500
      (λ items t.
        or_refuse refused always_500 (λ overview u. (health (health_summary overview) items, u))
          (State.overview t))
      (list_admin_keys s)

-- One entry of `aggByPair`, under its key.
pub record ModelEntry : Type 0 where
  pub pair : Text
  pub item : AdminModelItem
  pub seen : List ℕ

-- the entry of the pair has seen the key
was_seen : Text → ℕ → List ModelEntry → Bool
was_seen pair key_id [] = false
was_seen pair key_id (entry ∷ entries) =
    (list_eq entry.pair pair && elem key_id entry.seen) || was_seen pair key_id entries

abbrev bump : Bool → AdminModelItem → AdminModelItem
bump is_healthy item = record item {
  key_count = item.key_count + 1;
  healthy_keys = if is_healthy then item.healthy_keys + 1 else item.healthy_keys;
}

-- the key counts for the entry of the pair, which is made where it is missing
count_key : Text → AdminModelItem → ℕ → Bool → List ModelEntry → List ModelEntry
count_key pair new key_id is_healthy [] =
    record { pair = pair; item = bump is_healthy new; seen = key_id ∷ [] } ∷ []
count_key pair new key_id is_healthy (entry ∷ entries) =
    let rest = count_key pair new key_id is_healthy entries in
    if list_eq entry.pair pair
    then record entry { item = bump is_healthy entry.item; seen = key_id ∷ entry.seen } ∷ entries
    else entry ∷ rest

-- the cooldown is over, by a new reading of the clock, or there is none
is_over : Option ℕ → M Bool
is_over none = pure true
is_over (some until) = do time ← now; pure (ltb until time)

counts_as_healthy : KeyState → M Bool
unfolding is_over
counts_as_healthy state = elim state.status [
  | healthy ↦ is_over state.cooldown_until
  | unset ↦ is_over state.cooldown_until
  | _ ↦ pure false
]

-- the rest of the round for a key that the entry has not seen
unless_seen : Bool → Text → AdminModelItem → KeyState → ℕ → List ModelEntry → M (List ModelEntry)
unfolding count_key counts_as_healthy
unless_seen true pair new state key_id entries = pure entries
unless_seen false pair new state key_id entries = do
  is_healthy ← counts_as_healthy state
  pure (count_key pair new key_id is_healthy entries)

abbrev pair_of : UpstreamKey → Text → Text
pair_of key model = provider_text key.provider ++ (codes ":" ++ model)

abbrev new_item : UpstreamKey → Text → AdminModelItem
new_item key model = record {
  model = model;
  provider = provider_text key.provider;
  key_count = 0;
  healthy_keys = 0;
}

-- the round of one row whose key is there and enabled
count_model : UpstreamKey → Text → List ModelEntry → M (List ModelEntry)
unfolding was_seen unless_seen
count_model key model entries = do
  state ← state_or_zero key.id
  unless_seen (was_seen (pair_of key model) key.id entries) (pair_of key model) (new_item key model)
      state key.id entries

count_row : Option UpstreamKey → Text → List ModelEntry → M (List ModelEntry)
unfolding count_model
count_row none model entries = pure entries
count_row (some key) model entries =
    if key.enabled then count_model key model entries else pure entries

count_rows : List UpstreamKey → List KeyModel → List ModelEntry → M (List ModelEntry)
unfolding count_row
count_rows all [] entries = pure entries
count_rows all (row ∷ rows) entries = do
  counted ← count_row (find? (has_id row.key_id) all) row.model entries
  count_rows all rows counted

items_of : List ModelEntry → List AdminModelItem
items_of [] = []
items_of (entry ∷ entries) = entry.item ∷ items_of entries

-- by model and then by provider
abbrev pub before_item : AdminModelItem → AdminModelItem → Bool
before_item a b =
    if list_eq a.model b.model then text_ltb a.provider b.provider else text_ltb a.model b.model

list_models : M (List AdminModelItem)
unfolding count_rows items_of
list_models = do
  all ← Keys.list
  rows ← Models.list_all
  entries ← count_rows all rows []
  pure (sort before_item (items_of entries))

pub handle_models : Handler Report
unfolding list_models
handle_models s = or_refuse refused always_500 (λ items t. (models items, t)) (list_models s)

-- what `strconv.Atoi` read, if it is positive, up to 500
limit_of : Option ℤ → ℕ
limit_of (some (pos (suc n))) = if ltb 500 (suc n) then 500 else suc n
limit_of o = 100

-- 100 where no limit is given
unfoldable pub request_limit : Text → ℕ
unfolding limit_of
request_limit raw = if is_empty (trim_space raw) then 100 else limit_of (parse_int (trim_space raw))

name_of : Option DownstreamKey → Text
name_of none = []
name_of (some key) = key.name

unfoldable pub downstream_key_name : Option ℕ → List DownstreamKey → Text
unfolding name_of
downstream_key_name none all = []
downstream_key_name (some id) all = name_of (find? (λ (key : DownstreamKey). key.id == id) all)

-- the label and the provider of a key, empty where it is missing
unfoldable pub label_of : Option UpstreamKey → Text × Text
label_of none = ([], [])
label_of (some key) = (key.name, provider_text key.provider)

abbrev pub request_item : List UpstreamKey → List DownstreamKey → RequestLog → RequestItem
request_item all clients entry =
    let label = label_of (find? (has_id entry.key_id) all) in
    record {
      id = entry.id;
      key_id = entry.key_id;
      key_label = label.0;
      provider = label.1;
      downstream_key_id = entry.downstream_key_id;
      downstream_key_name = downstream_key_name entry.downstream_key_id clients;
      model = entry.model;
      prompt_tokens = entry.usage.prompt_tokens;
      completion_tokens = entry.usage.completion_tokens;
      total_tokens = entry.usage.total_tokens;
      latency_ms = entry.latency_ms;
      status = entry.status;
      error_message = entry.error_message;
      created_at = entry.created_at;
    }

-- one request more in the summary
unfoldable pub count_request : RequestsSummary → RequestLog → RequestsSummary
count_request summary entry = record {
  request_count = summary.request_count + 1;
  error_count =
      if list_eq entry.status (codes "ok") then summary.error_count else summary.error_count + 1;
  prompt_tokens = add64 summary.prompt_tokens entry.usage.prompt_tokens;
  completion_tokens = add64 summary.completion_tokens entry.usage.completion_tokens;
  total_tokens = add64 summary.total_tokens entry.usage.total_tokens;
}

abbrev pub nothing_requested : RequestsSummary
nothing_requested = record {
  request_count = 0;
  error_count = 0;
  prompt_tokens = pos 0;
  completion_tokens = pos 0;
  total_tokens = pos 0;
}

-- no filter, or the model asked for
unfoldable pub passes : Text → RequestLog → Bool
passes model_filter entry = is_empty model_filter || list_eq entry.model model_filter

-- the loop over the log: the items in order and the summary
unfoldable pub collect :
    Text
    → (RequestLog → RequestItem)
    → RequestsSummary
    → List RequestLog
    → List RequestItem × RequestsSummary
unfolding count_request passes
collect model_filter to_item summary [] = ([], summary)
collect model_filter to_item summary (entry ∷ logs) =
    let shown = passes model_filter entry in
    let (rest, total) =
      collect model_filter to_item (if shown then count_request summary entry else summary) logs in
    (if shown then to_item entry ∷ rest else rest, total)

-- the keys of `modelSet`
unfoldable pub model_set : List RequestLog → List Text
model_set [] = []
model_set (entry ∷ logs) =
    let rest = model_set logs in if contains entry.model rest then rest else entry.model ∷ rest

abbrev pub report_requests : Text → List RequestLog → List UpstreamKey → List DownstreamKey → Report
report_requests model_filter logs all clients =
    let (items, summary) = collect model_filter (request_item all clients) nothing_requested logs in
    requests items summary (record { model = model_filter; models = sort_texts (model_set logs) })

-- the three queries of `handleRequests`
unfoldable pub list_requests : Text → Text → M Report
unfolding request_limit collect model_set
list_requests raw_model raw_limit = do
  logs ← Logs.list_recent (request_limit raw_limit)
  all ← Keys.list
  clients ← DownstreamKeys.list
  pure (report_requests (trim_space raw_model) logs all clients)

pub handle_requests : Text → Text → Handler Report
unfolding list_requests
handle_requests raw_model raw_limit s =
    or_refuse refused always_500 (λ report t. (report, t)) (list_requests raw_model raw_limit s)

-- ===== src/Admin/Reports/Requests.antt =====
-- `handleRequests` of internal/app/handlers_admin.go.
use mathlib.Core.List.Permᴰ as Perms
use atomhub.Prelude.{
  ℕ, suc, ◌+◌, ◌≤◌, ◌≡◌, refl, ◌∙◌, ap, ◌⊎◌, inl, inr, Bool, not, List, [], ◌∷◌, map, filter, take,
  length, Option, none, some, arith, ◌==◌, if◌then◌else◌, Bool-cases, list_eq, list_eq_iff,
}
use atomhub.Prelude.Int.{ℤ, pos}
use atomhub.Prelude.Sort.{sort, sort-perm, IsSorted}
use atomhub.Text.{Text, codes, is_empty, trim_space}
use atomhub.Text.Decimal.{parse_int}
use atomhub.Text.Order.{text_ltb, sort_texts, sort_texts-IsSorted}
use atomhub.Text.Unique.{contains, IsUnique, contains-perm, IsUnique-perm}
use atomhub.Types.{UpstreamKey, DownstreamKey, RequestLog, error_text, database, Result, ok, err}
use atomhub.Server.{Server}
use atomhub.Server.Outcome.{
  Outcome, Outcome-bind, Outcome-query, Outcome-pure, Holds, Untouched, Untouched-with_faults,
}
use atomhub.Store.Keys
use atomhub.Store.Logs
use atomhub.Store.Logs.{newer}
use atomhub.Store.DownstreamKeys
use atomhub.Admin.Answers.{or_refuse, always_500}
use atomhub.Admin.Reports.{
  Report, refused, requests, RequestItem, RequestsSummary, RequestsFilters, limit_of, request_limit,
  request_item, count_request, nothing_requested, passes, collect, model_set, report_requests,
  list_requests, handle_requests,
}

-- The status of an item is not ok.
abbrev pub is_failed : RequestItem → Bool
is_failed item = not (list_eq item.status (codes "ok"))

-- The rows of the log that are read: the newest, up to the limit.
abbrev pub recent : ℕ → Server → List RequestLog
recent limit s = take limit (sort newer s.tables.request_logs)

abbrev pub models_of : List RequestLog → List Text
models_of = map (λ (r : RequestLog). r.model)

-- An item has the columns of its row.
abbrev pub Shows : RequestLog → RequestItem → Type 0
Shows r item =
    (item.id ≡ r.id)
    × (item.key_id ≡ r.key_id)
    × (item.downstream_key_id ≡ r.downstream_key_id)
    × (item.model ≡ r.model)
    × (item.prompt_tokens ≡ r.usage.prompt_tokens)
    × (item.completion_tokens ≡ r.usage.completion_tokens)
    × (item.total_tokens ≡ r.usage.total_tokens)
    × (item.latency_ms ≡ r.latency_ms)
    × (item.status ≡ r.status)
    × (item.error_message ≡ r.error_message)
    × (item.created_at ≡ r.created_at)

-- What the answer says of the rows that were read.
pub record Requested (model_filter : Text) (limit : ℕ) (s : Server) (items : List RequestItem)
    (summary : RequestsSummary) (filters : RequestsFilters) : Type 0 where
  pub limited : (1 ≤ limit) × (limit ≤ 500)
  pub shown :
      (to_item : RequestLog → RequestItem) × ((r : RequestLog) → Shows r (to_item r))
      × (items ≡ map to_item (filter (passes model_filter) (recent limit s)))
  pub requested : summary.request_count ≡ length items
  pub errors : summary.error_count ≡ length (filter is_failed items)
  pub models : (m : Text) → contains m filters.models ≡ contains m (models_of (recent limit s))
  pub once : IsUnique filters.models
  pub sorted : IsSorted text_ltb filters.models

limit_of_bounds : (o : Option ℤ) → (1 ≤ limit_of o) × (limit_of o ≤ 500)
unfolding limit_of
limit_of_bounds none = ground arith
limit_of_bounds (some (pos (suc n))) = ground arith
limit_of_bounds (some z) = ground arith

request_limit_bounds : (raw : Text) → (1 ≤ request_limit raw) × (request_limit raw ≤ 500)
unfolding request_limit
request_limit_bounds raw = elim (Bool-cases (is_empty (trim_space raw))) [
  | inl e ↦ rw e (omega arith)
  | inr e ↦ rw e (limit_of_bounds (parse_int (trim_space raw)))
]

positive_kept : (n : ℕ) → 1 ≤ n → (if n == 0 then 50 else n) ≡ n
positive_kept n h = ground arith

module _ (model_filter : Text) (to_item : RequestLog → RequestItem) where
  collect-map :
      (summary : RequestsSummary) (logs : List RequestLog)
      → (collect model_filter to_item summary logs).0
        ≡ map to_item (filter (passes model_filter) logs)
  unfolding collect
  collect-map summary [] = refl
  collect-map summary (entry ∷ logs) = elim (Bool-cases (passes model_filter entry)) [
    | inl e ↦
        rw (e, collect) (ap (◌∷◌ (to_item entry)) (collect-map (count_request summary entry) logs))
    | inr e ↦ rw (e, collect) (collect-map summary logs)
  ]

  collect-length :
      (summary : RequestsSummary) (logs : List RequestLog)
      → (collect model_filter to_item summary logs).1.request_count
        ≡ summary.request_count + length (collect model_filter to_item summary logs).0
  unfolding collect count_request
  collect-length summary [] = omega arith
  collect-length summary (entry ∷ logs) = elim (Bool-cases (passes model_filter entry)) [
    | inl e ↦ rw (e, collect) (omega (arith, collect-length (count_request summary entry) logs))
    | inr e ↦ rw (e, collect) (collect-length summary logs)
  ]

  collect-errors :
      ((r : RequestLog) → (to_item r).status ≡ r.status)
      → (summary : RequestsSummary) (logs : List RequestLog)
      → (collect model_filter to_item summary logs).1.error_count
        ≡ summary.error_count
          + length (filter is_failed (collect model_filter to_item summary logs).0)
  unfolding collect count_request
  collect-errors same summary [] = omega arith
  collect-errors same summary (entry ∷ logs) = elim (Bool-cases (passes model_filter entry)) [
    | inl e ↦
        rw (e, collect)
          (ground (arith, same entry, collect-errors same (count_request summary entry) logs))
    | inr e ↦ rw (e, collect) (collect-errors same summary logs)
  ]

contains-model_set :
    (m : Text) (logs : List RequestLog) → contains m (model_set logs) ≡ contains m (models_of logs)
unfolding model_set
contains-model_set m [] = refl
contains-model_set m (entry ∷ logs) = elim (Bool-cases (contains entry.model (model_set logs))) [
  | inl e ↦
      rw (e, model_set)
        (ground (
          arith,
          contains-model_set m logs,
          list_eq_iff entry.model m,
          e,
          ap (λ x. contains x (model_set logs)) ((list_eq_iff entry.model m).0 _),
        ))
  | inr e ↦ rw (e, model_set) (ground (arith, contains-model_set m logs))
]

model_set-IsUnique : (logs : List RequestLog) → IsUnique (model_set logs)
unfolding model_set
model_set-IsUnique [] = tt
model_set-IsUnique (entry ∷ logs) = elim (Bool-cases (contains entry.model (model_set logs))) [
  | inl e ↦ rw (e, model_set) (model_set-IsUnique logs)
  | inr e ↦ rw (e, model_set) (e, model_set-IsUnique logs)
]

-- What the answer is where no query failed.
abbrev pub Answered : Text → ℕ → Server → Report → Type 0
Answered model_filter limit s r =
    (items : List RequestItem) × (summary : RequestsSummary) × (filters : RequestsFilters) × (r
      ≡ requests items summary filters)
    × Requested model_filter limit s items summary filters

reported :
    (model_filter : Text) (limit : ℕ) (s : Server) (all : List UpstreamKey)
    (clients : List DownstreamKey)
    → (1 ≤ limit) × (limit ≤ 500)
    → Answered model_filter limit s (report_requests model_filter (recent limit s) all clients)
reported model_filter limit s all clients bounds =
    let logs = recent limit s in
    let to_item = request_item all clients in
    let r = collect model_filter to_item nothing_requested logs in
    let filters : RequestsFilters = record {
      model = model_filter;
      models = sort_texts (model_set logs);
    } in
    (
      r.0,
      r.1,
      filters,
      refl,
      record {
        limited = bounds;
        shown = (
          to_item,
          (λ row. (refl, refl, refl, refl, refl, refl, refl, refl, refl, refl, refl)),
          collect-map model_filter to_item nothing_requested logs,
        );
        requested = omega (arith, collect-length model_filter to_item nothing_requested logs);
        errors =
            omega (arith, collect-errors model_filter to_item (λ row. refl) nothing_requested logs);
        models = λ m.
            unfold sort_texts in
            contains-perm m (sort-perm text_ltb (model_set logs)) ∙ contains-model_set m logs;
        once =
            unfold sort_texts in
            IsUnique-perm (Perms.symm (sort-perm text_ltb (model_set logs)))
              (model_set-IsUnique logs);
        sorted = sort_texts-IsSorted (model_set logs);
      },
    )

module _ (raw_model raw_limit : Text) (s : Server) where
  list_requests-Answered :
      Outcome
        (λ e t. (e ≡ database) × Untouched s t)
        (λ r t. Answered (trim_space raw_model) (request_limit raw_limit) s r × Untouched s t)
        (list_requests raw_model raw_limit)
        s
  unfolding list_requests Logs.list_recent Keys.list DownstreamKeys.list
  list_requests-Answered = Outcome-bind (
      Outcome-query _ (λ fs. (refl, Untouched-with_faults))
        (λ fs. Outcome-bind (
          Outcome-query _ (λ gs. (refl, Untouched-with_faults))
            (λ gs. Outcome-bind (
              Outcome-query _ (λ hs. (refl, Untouched-with_faults))
                (λ hs. Outcome-pure (
                  rw (positive_kept (request_limit raw_limit) (request_limit_bounds raw_limit).0) (
                      reported (trim_space raw_model) (request_limit raw_limit) s _ _
                        (request_limit_bounds raw_limit)),
                  Untouched-with_faults,
                )))))))

  answered :
      (r : Result Report × Server)
      → Holds
          (λ e t. (e ≡ database) × Untouched s t)
          (λ v t. Answered (trim_space raw_model) (request_limit raw_limit) s v × Untouched s t)
          r
      → let a = or_refuse refused always_500 (λ v t. (v, t)) r in
        (Answered (trim_space raw_model) (request_limit raw_limit) s a.0
          ⊎ (a.0 ≡ refused 500 (error_text database)))
        × Untouched s a.1
  unfolding or_refuse always_500
  answered (ok v, t) (h, q) = (inl h, q)
  answered (err e, t) (h, q) = (inr (ap (λ x. refused 500 (error_text x)) h), q)

  -- Of the newest requests, at most 500 and at least one where there are any, the answer has those of
  -- the model asked for, or all where none is asked for, in the order of the log from the newest; the
  -- summary counts them and those of them that failed; and the models to choose from are those of all
  -- rows read, sorted and each once. If a query fails the answer is 500. Nothing is changed.
  pub handle_requests-Requested :
      (Answered
          (trim_space raw_model)
          (request_limit raw_limit)
          s
          (handle_requests raw_model raw_limit s).0
        ⊎ ((handle_requests raw_model raw_limit s).0 ≡ refused 500 (error_text database)))
      × Untouched s (handle_requests raw_model raw_limit s).1
  unfolding handle_requests
  handle_requests-Requested =
      answered (list_requests raw_model raw_limit s) list_requests-Answered.holds

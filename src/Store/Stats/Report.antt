-- ===== src/Store/Stats/Report.antt =====
-- `TokenStats` of internal/store/stats.go against the rows of the log: its sums, its order and its
-- failures.
use mathlib.Core.List.Permᴰ as Perms
use atomhub.Prelude.{
  ℕ, ◌+◌, ◌≡◌, refl, ◌∙◌, sym, ap, inl, inr, Bool, true, false, List, [], ◌∷◌, arith, if◌then◌else◌,
  Bool-cases, list_eq, list_eq_iff, list_eq_refl, length, All, All-map,
}
use atomhub.Prelude.Int.{ℤ, pos, ◌+ℤ◌, +ℤ_comm, zero-+ℤ, ltb_ℤ}
use atomhub.Prelude.Sort.{sort, sort-perm, IsSorted, sort-IsSorted}
use atomhub.Text.{Text}
use atomhub.Text.Order.{text_ltb}
use atomhub.Text.Unique.{contains, IsUnique, IsUnique-perm}
use atomhub.Types.{RequestLog, ModelTokenStat, TokenSummary, Error, database}
use atomhub.Server.{Server, Tables}
use atomhub.Server.Outcome.{
  Outcome, Outcome-bind, Outcome-seq, Outcome-query, Outcome-pure, Outcome-fail, Untouched,
  Untouched-with_faults, with_faults,
}
use atomhub.Store.Stats.{
  no_tokens, add_row, summary_of, tokens_of, groups, larger_total, fits, all_fit, sum_overflow,
  or_overflow, query_groups, query_summary, token_stats,
}
use atomhub.Store.Stats.Tally.{
  add_tokens, tally, logs_of, logs_of_all, models_of, tally-groups, tally-perm, groups-IsUnique,
  models-perm, larger_total_asym, larger_total_weak,
}

-- the sum of a column of the rows
abbrev pub sum_of : (RequestLog → ℤ) → List RequestLog → ℤ
sum_of column [] = pos 0
sum_of column (row ∷ rows) = column row +ℤ sum_of column rows

-- the sum of a column of the items whose models pass a test
abbrev pub items_sum : (ModelTokenStat → ℤ) → (Text → Bool) → List ModelTokenStat → ℤ
items_sum column test [] = pos 0
items_sum column test (item ∷ items) =
    if test item.model
    then column item +ℤ items_sum column test items
    else items_sum column test items

abbrev pub items_count : (Text → Bool) → List ModelTokenStat → ℕ
items_count test [] = 0
items_count test (item ∷ items) =
    if test item.model then item.request_count + items_count test items else items_count test items

-- The four counts are those of the rows.
pub record Sums (rows : List RequestLog) (t : TokenSummary) : Type 0 where
  pub prompt : t.prompt_tokens ≡ sum_of (λ r. r.usage.prompt_tokens) rows
  pub completion : t.completion_tokens ≡ sum_of (λ r. r.usage.completion_tokens) rows
  pub total : t.total_tokens ≡ sum_of (λ r. r.usage.total_tokens) rows
  pub requests : t.request_count ≡ length rows

-- the items whose models pass a test, as one
abbrev pub together : (Text → Bool) → List ModelTokenStat → TokenSummary
together test items = record {
  prompt_tokens = items_sum (λ i. i.prompt_tokens) test items;
  completion_tokens = items_sum (λ i. i.completion_tokens) test items;
  total_tokens = items_sum (λ i. i.total_tokens) test items;
  request_count = items_count test items;
}

tally-together :
    (test : Text → Bool) (items : List ModelTokenStat) → tally test items ≡ together test items
tally-together test [] = refl
tally-together test (item ∷ items) = elim (Bool-cases (test item.model)) [
  | inl e ↦ rw e (ap (add_tokens (tokens_of item)) (tally-together test items))
  | inr e ↦ rw e (tally-together test items)
]

summary_of-Sums : (rows : List RequestLog) → Sums rows (summary_of rows)
unfolding summary_of add_row
summary_of-Sums [] = record { prompt = refl; completion = refl; total = refl; requests = refl }
summary_of-Sums (row ∷ rows) =
    let h = summary_of-Sums rows in
    record {
      prompt = ap (λ n. row.usage.prompt_tokens +ℤ n) h.prompt;
      completion = ap (λ n. row.usage.completion_tokens +ℤ n) h.completion;
      total = ap (λ n. row.usage.total_tokens +ℤ n) h.total;
      requests = let n = h.requests in ground arith;
    }

same-Sums : (rows : List RequestLog) (a b : TokenSummary) → a ≡ b → Sums rows b → Sums rows a
same-Sums rows a b e h = record {
  prompt = ap (λ (t : TokenSummary). t.prompt_tokens) e ∙ h.prompt;
  completion = ap (λ (t : TokenSummary). t.completion_tokens) e ∙ h.completion;
  total = ap (λ (t : TokenSummary). t.total_tokens) e ∙ h.total;
  requests = ap (λ (t : TokenSummary). t.request_count) e ∙ h.requests;
}

-- An item may stand before another: its total is no smaller, and if the other's is none either, its
-- model is no later.
abbrev pub Precedes : ModelTokenStat → ModelTokenStat → Type 0
Precedes a b =
    (ltb_ℤ a.total_tokens b.total_tokens ≡ false)
    × (ltb_ℤ b.total_tokens a.total_tokens ≡ false → text_ltb b.model a.model ≡ false)

abbrev pub InOrder : List ModelTokenStat → Type 0
InOrder [] = Unit {0}
InOrder (item ∷ items) = All (Precedes item) items × InOrder items

sorted-InOrder : (items : List ModelTokenStat) → IsSorted larger_total items → InOrder items
sorted-InOrder [] h = tt
sorted-InOrder (item ∷ items) h = (
  All-map {Q = Precedes item} items
      (λ other e. (ground (arith, e), λ same. ground (arith, e, same))) h.0,
  sorted-InOrder items h.1,
)

-- What the dashboard shows of a log.
pub record Reports (rows : List RequestLog) (items : List ModelTokenStat) (summary : TokenSummary)
    : Type 0 where
  pub of_models : (test : Text → Bool) → Sums (logs_of test rows) (together test items)
  pub of_all : Sums rows summary
  pub once : IsUnique (models_of items)
  pub in_order : InOrder items

-- Why there is no report: a query failed, or some models' rows have a sum beyond int64.
pub data Unreported (rows : List RequestLog) : Error → Type 0 where
  query_failed : Unreported rows database
  overflowed :
      (test : Text → Bool) (sums : TokenSummary)
      → Sums (logs_of test rows) sums
      → fits sums ≡ false
      → Unreported rows sum_overflow

groups-Sums :
    (test : Text → Bool) (rows : List RequestLog)
    → Sums (logs_of test rows) (tally test (groups rows))
groups-Sums test rows =
    same-Sums (logs_of test rows) _ _ (tally-groups test rows) (summary_of-Sums (logs_of test rows))

-- the item of a model that the items have once
none_tallied :
    (value : Text) (items : List ModelTokenStat)
    → contains value (models_of items) ≡ false
    → tally (λ m. list_eq m value) items ≡ no_tokens
none_tallied value [] h = refl
none_tallied value (item ∷ items) h = elim (Bool-cases (list_eq item.model value)) [
  | inl e ↦ let never : true ≡ false = rw e at h in cc
  | inr e ↦ rw e (none_tallied value items (rw e at h))
]

add_nothing : (a : TokenSummary) → add_tokens a no_tokens ≡ a
add_nothing a = ground (
  arith,
  +ℤ_comm a.prompt_tokens (pos 0),
  +ℤ_comm a.completion_tokens (pos 0),
  +ℤ_comm a.total_tokens (pos 0),
  zero-+ℤ a.prompt_tokens,
  zero-+ℤ a.completion_tokens,
  zero-+ℤ a.total_tokens,
)

one_too_large :
    (items : List ModelTokenStat)
    → IsUnique (models_of items)
    → all_fit items ≡ false
    → (value : Text) × (contains value (models_of items) ≡ true)
      × (fits (tally (λ m. list_eq m value) items) ≡ false)
unfolding all_fit
one_too_large [] u h = cc
one_too_large (item ∷ items) u h = elim (Bool-cases (fits (tokens_of item))) [
  | inl e ↦
      let (value, there, large) = one_too_large items u.1 (rw e at h) in
      let other : list_eq item.model value ≡ false =
        ground (arith, list_eq_iff item.model value, u.0, there) in
      (value, rw other there, rw other large)
  | inr e ↦
      let here = list_eq_refl item.model in
      let alone =
        ap (add_tokens (tokens_of item)) (none_tallied item.model items u.0)
        ∙ add_nothing (tokens_of item) in
      (item.model, rw here refl, rw here (ap fits alone ∙ e))
]

-- the sorted groups
sorted_groups-Reports :
    (rows : List RequestLog) → Reports rows (sort larger_total (groups rows)) (summary_of rows)
sorted_groups-Reports rows =
    let perm = sort-perm larger_total (groups rows) in
    record {
      of_models = λ test.
          same-Sums (logs_of test rows) _ _
            (sym (tally-together test (sort larger_total (groups rows))) ∙ tally-perm test perm)
            (groups-Sums test rows);
      of_all = summary_of-Sums rows;
      once = IsUnique-perm (models-perm (Perms.symm perm)) (groups-IsUnique rows);
      in_order =
          sorted-InOrder (sort larger_total (groups rows))
            (sort-IsSorted larger_total larger_total_asym larger_total_weak (groups rows));
    }

module _ (s : Server) where
  abbrev pub Failed : Error → Server → Type 0
  Failed e t = Untouched s t × Unreported s.tables.request_logs e

  query_groups-Reports :
      Outcome Failed
        (λ items t. Untouched s t × (items ≡ sort larger_total (groups s.tables.request_logs)))
        query_groups
        s
  unfolding query_groups or_overflow
  query_groups-Reports = Outcome-bind (
      Outcome-query _ (λ fs. (Untouched-with_faults, query_failed))
        (λ fs. elim (Bool-cases (all_fit (groups s.tables.request_logs))) [
          | inl e ↦ rw e (Outcome-pure (Untouched-with_faults, refl))
          | inr e ↦
              let rows = s.tables.request_logs in
              let (value, there, large) = one_too_large (groups rows) (groups-IsUnique rows) e in
              let test : Text → Bool = λ m. list_eq m value in
              rw e (
                Outcome-fail (
                  Untouched-with_faults,
                  overflowed test (tally test (groups rows)) (groups-Sums test rows) large,
                ))
        ]))

  query_summary-Reports :
      (t : Server)
      → Untouched s t
      → Outcome Failed
          (λ summary u. Untouched s u × (summary ≡ summary_of s.tables.request_logs))
          query_summary
          t
  unfolding query_summary or_overflow
  query_summary-Reports t q =
      let rows = s.tables.request_logs in
      let same : t.tables.request_logs ≡ rows = ap (λ (x : Tables). x.request_logs) q.tables in
      Outcome-bind (
        Outcome-query _ (λ fs. (after fs, query_failed))
          (λ fs. elim (Bool-cases (fits (summary_of t.tables.request_logs))) [
            | inl e ↦ rw e (Outcome-pure (after fs, ap summary_of same))
            | inr e ↦ rw e (
                Outcome-fail (
                  after fs,
                  overflowed (λ m. true) (summary_of rows)
                      (same-Sums (logs_of (λ m. true) rows) _ _
                        (ap summary_of (sym (logs_of_all rows)))
                        (summary_of-Sums (logs_of (λ m. true) rows)))
                      (ap fits (ap summary_of (sym same)) ∙ e),
                ))
          ]))
    where
      after : (fs : List Bool) → Untouched s (with_faults fs t)
      after fs = record {
        tables = q.tables;
        memory = record { inflight = q.memory.inflight; keys_by_model = q.memory.keys_by_model };
      }

  -- For any choice of models the items of those models sum up, in tokens of the three kinds and in
  -- requests, to the rows of the log with such a model, so that each item has the sums of its model;
  -- the summary has the sums of all rows; no model has two items; and the items stand by their total,
  -- the largest first, and then by model. It fails only where a query fails or the rows of some models
  -- have a sum beyond int64. Nothing is changed.
  pub token_stats-Reports :
      Outcome Failed (λ v t. Reports s.tables.request_logs v.0 v.1 × Untouched s t) token_stats s
  unfolding token_stats
  token_stats-Reports =
      Outcome-seq query_groups-Reports
        (λ items t (h : Untouched s t × (items ≡ sort larger_total (groups s.tables.request_logs))).
          Outcome-seq (query_summary-Reports t h.0)
            (λ summary u (k : Untouched s u × (summary ≡ summary_of s.tables.request_logs)).
              Outcome-pure (rw (h.1, k.1) (sorted_groups-Reports s.tables.request_logs), k.0)))

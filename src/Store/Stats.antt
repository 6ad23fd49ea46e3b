-- ===== src/Store/Stats.antt =====
-- The statistics of the dashboard: internal/store/stats.go. The sum of SQLite is one of int64: a query
-- with a sum beyond it fails. The counts of the log are not negative, as `Insert` writes them, so that
-- the order of the rows makes no difference to that.
pub mod Tally
pub mod Report
pub mod Sound
mod Examples
use atomhub.Prelude.{
  ℕ, ◌+◌, Bool, true, ltb, leb, ◌&&◌, ◌||◌, List, [], ◌∷◌, if◌then◌else◌, list_eq,
}
use atomhub.Prelude.Int.{ℤ, pos, pos_part, neg_part, half_word, ◌+ℤ◌, ltb_ℤ, eqb_ℤ}
use atomhub.Prelude.Sort.{sort}
use atomhub.Text.{Text, codes}
use atomhub.Text.Order.{text_ltb}
use atomhub.Types.{Error, message, RequestLog, ModelTokenStat, TokenSummary}
use atomhub.Server.{M, ◌>>=◌, pure, fail, query}

abbrev pub no_tokens : TokenSummary
no_tokens = record {
  prompt_tokens = pos 0;
  completion_tokens = pos 0;
  total_tokens = pos 0;
  request_count = 0;
}

-- sum(…) and count(*), with one row more
unfoldable pub add_row : RequestLog → TokenSummary → TokenSummary
add_row row t = record {
  prompt_tokens = row.usage.prompt_tokens +ℤ t.prompt_tokens;
  completion_tokens = row.usage.completion_tokens +ℤ t.completion_tokens;
  total_tokens = row.usage.total_tokens +ℤ t.total_tokens;
  request_count = t.request_count + 1;
}

-- coalesce(sum(…), 0) and count(*)
unfoldable pub summary_of : List RequestLog → TokenSummary
unfolding add_row
summary_of [] = no_tokens
summary_of (row ∷ rows) = add_row row (summary_of rows)

abbrev pub stat_of : Text → TokenSummary → ModelTokenStat
stat_of model t = record {
  model = model;
  prompt_tokens = t.prompt_tokens;
  completion_tokens = t.completion_tokens;
  total_tokens = t.total_tokens;
  request_count = t.request_count;
}

abbrev pub tokens_of : ModelTokenStat → TokenSummary
tokens_of item = record {
  prompt_tokens = item.prompt_tokens;
  completion_tokens = item.completion_tokens;
  total_tokens = item.total_tokens;
  request_count = item.request_count;
}

-- The row goes into the group of its model.
unfoldable pub add_to_group : RequestLog → List ModelTokenStat → List ModelTokenStat
add_to_group row [] = stat_of row.model (add_row row no_tokens) ∷ []
add_to_group row (item ∷ items) =
    let rest = add_to_group row items in
    if list_eq item.model row.model
    then stat_of item.model (add_row row (tokens_of item)) ∷ items
    else item ∷ rest

-- group by model
unfoldable pub groups : List RequestLog → List ModelTokenStat
unfolding add_to_group
groups [] = []
groups (row ∷ rows) = add_to_group row (groups rows)

-- order by total_tokens desc, model asc
abbrev pub larger_total : ModelTokenStat → ModelTokenStat → Bool
larger_total a b =
    ltb_ℤ b.total_tokens a.total_tokens
    || (eqb_ℤ a.total_tokens b.total_tokens && text_ltb a.model b.model)

abbrev pub fits_int64 : ℤ → Bool
fits_int64 n = ltb (pos_part n) half_word && leb (neg_part n) half_word

-- each sum is one that SQLite can make
unfoldable pub fits : TokenSummary → Bool
fits t = fits_int64 t.prompt_tokens && (fits_int64 t.completion_tokens && fits_int64 t.total_tokens)

unfoldable pub all_fit : List ModelTokenStat → Bool
all_fit [] = true
all_fit (item ∷ items) = fits (tokens_of item) && all_fit items

abbrev pub sum_overflow : Error
sum_overflow = message (codes "integer overflow")

-- the rows of a query, if its sums fit
or_overflow : {A : Type 0} → Bool → A → M A
or_overflow fitting a = if fitting then pure a else fail sum_overflow

-- the query of the groups
query_groups : M (List ModelTokenStat)
unfolding groups or_overflow
query_groups = do
  items ← query (λ t. groups t.request_logs)
  or_overflow (all_fit items) (sort larger_total items)

-- the query of the whole
query_summary : M TokenSummary
unfolding summary_of or_overflow
query_summary = do
  summary ← query (λ t. summary_of t.request_logs)
  or_overflow (fits summary) summary

pub token_stats : M (List ModelTokenStat × TokenSummary)
unfolding query_groups query_summary
token_stats = do items ← query_groups; summary ← query_summary; pure (items, summary)

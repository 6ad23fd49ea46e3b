-- ===== src/Usage.antt =====
-- Token counts of one call: internal/usage/usage.go, `Normalize` and `Aggregate`.
-- Counts are int64; sums wrap.
pub mod Balance
mod Examples
use atomhub.Prelude.{Bool, ◌&&◌, not, List, [], ◌∷◌, if◌then◌else◌}
use atomhub.Prelude.Int.{ℤ, pos, ltb_ℤ, eqb_ℤ, add64, sub64}

pub record ParsedUsage : Type 0 where
  pub prompt_tokens : ℤ
  pub completion_tokens : ℤ
  pub total_tokens : ℤ

clamp_non_negative : ℤ → ℤ
clamp_non_negative value = if ltb_ℤ value (pos 0) then pos 0 else value

clamp : ParsedUsage → ParsedUsage
unfolding clamp_non_negative
clamp u = record {
  prompt_tokens = clamp_non_negative u.prompt_tokens;
  completion_tokens = clamp_non_negative u.completion_tokens;
  total_tokens = clamp_non_negative u.total_tokens;
}

-- `if out.TotalTokens == 0 { out.TotalTokens = sum }`
fill_total : ParsedUsage → ParsedUsage
fill_total u =
    if eqb_ℤ u.total_tokens (pos 0)
    then record u { total_tokens = add64 u.prompt_tokens u.completion_tokens }
    else u

-- `if sum == 0 && out.TotalTokens > 0 { … }`: `sum` was computed before the total was filled in
fill_completion : ℤ → ParsedUsage → ParsedUsage
fill_completion sum u =
    if eqb_ℤ sum (pos 0) && ltb_ℤ (pos 0) u.total_tokens
    then record u { completion_tokens = u.total_tokens }
    else u

split_prompt : ParsedUsage → ParsedUsage
split_prompt u =
    if eqb_ℤ u.prompt_tokens (pos 0)
      && (ltb_ℤ (pos 0) u.completion_tokens && ltb_ℤ u.completion_tokens u.total_tokens)
    then record u { prompt_tokens = sub64 u.total_tokens u.completion_tokens }
    else u

split_completion : ParsedUsage → ParsedUsage
split_completion u =
    if eqb_ℤ u.completion_tokens (pos 0)
      && (ltb_ℤ (pos 0) u.prompt_tokens && ltb_ℤ u.prompt_tokens u.total_tokens)
    then record u { completion_tokens = sub64 u.total_tokens u.prompt_tokens }
    else u

-- the block under `if out.TotalTokens > 0`
split_total : ParsedUsage → ParsedUsage
unfolding split_prompt split_completion
split_total u = if ltb_ℤ (pos 0) u.total_tokens then split_completion (split_prompt u) else u

-- `if sum > 0 { out.TotalTokens = sum }`
settle_total : ParsedUsage → ParsedUsage
settle_total u =
    let sum = add64 u.prompt_tokens u.completion_tokens in
    if ltb_ℤ (pos 0) sum then record u { total_tokens = sum } else u

-- Everything after the clamping.
complete : ParsedUsage → ParsedUsage
complete c =
    settle_total
      (split_total (fill_completion (add64 c.prompt_tokens c.completion_tokens) (fill_total c)))

pub normalize : ParsedUsage → ParsedUsage
normalize u = complete (clamp u)

abbrev pub no_tokens : ParsedUsage
no_tokens = record { prompt_tokens = pos 0; completion_tokens = pos 0; total_tokens = pos 0 }

-- the body of the loop of `Aggregate`
add_usage : ParsedUsage → ParsedUsage → ParsedUsage
add_usage total n = record {
  prompt_tokens = add64 total.prompt_tokens n.prompt_tokens;
  completion_tokens = add64 total.completion_tokens n.completion_tokens;
  total_tokens = add64 total.total_tokens n.total_tokens;
}

aggregate_from : ParsedUsage → List ParsedUsage → ParsedUsage
aggregate_from total [] = total
aggregate_from total (u ∷ us) = aggregate_from (add_usage total (normalize u)) us

pub aggregate : List ParsedUsage → ParsedUsage
aggregate us = aggregate_from no_tokens us

-- ===== src/Usage/Examples.antt =====
-- Runs of internal/usage/usage.go.
use atomhub.Prelude.{◌≡◌, refl, [], ◌∷◌, arith}
use atomhub.Prelude.Int.{pos, negsuc, add64, sub64}
use atomhub.Usage.Balance.{of_split, normal_form, normalize-split, aggregate-sums}
use atomhub.Usage.{
  aggregate, ParsedUsage, normalize, complete, clamp, fill_total, fill_completion, split_total,
  settle_total,
}

abbrev total_only : ParsedUsage
total_only = record { prompt_tokens = pos 0; completion_tokens = negsuc 4; total_tokens = pos 9 }

total_only_run :
    normalize total_only
    ≡ record { prompt_tokens = pos 0; completion_tokens = pos 9; total_tokens = pos 9 }
unfolding normalize complete clamp fill_total fill_completion split_total settle_total add64 sub64
total_only_run = refl

abbrev reported : ParsedUsage
reported = record { prompt_tokens = pos 3; completion_tokens = pos 0; total_tokens = pos 9 }

normalize-split_example : normalize total_only ≡ of_split (normal_form total_only)
normalize-split_example = normalize-split total_only (omega arith)

aggregate-sums_example : aggregate (reported ∷ total_only ∷ []) ≡ of_split (3, 15)
aggregate-sums_example = aggregate-sums (reported ∷ total_only ∷ []) (omega arith) (omega arith)

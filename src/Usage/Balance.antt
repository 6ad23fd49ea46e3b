-- ===== src/Usage/Balance.antt =====
-- `Normalize` and `Aggregate` of internal/usage/usage.go: the counts that they return add up.
use atomhub.Prelude.{
  ℕ, ◌+◌, ◌-◌, ◌≤◌, ◌<◌, ◌≡◌, refl, ◌∙◌, ap, sym, List, [], ◌∷◌, arith, if◌then◌else◌, ltb, All,
  ◌==◌, ◌&&◌,
}
use atomhub.Prelude.Int.{pos, pos_part, half_word, add64, add64_small, sub64_small}
use atomhub.Usage.{
  ParsedUsage, normalize, aggregate, add_usage, aggregate_from, clamp, fill_total, complete,
  fill_completion, split_total, settle_total,
}

abbrev usage_of : ℕ → ℕ → ℕ → ParsedUsage
usage_of p c t = record { prompt_tokens = pos p; completion_tokens = pos c; total_tokens = pos t }

clamp_parts :
    (u : ParsedUsage)
    → clamp u
      ≡ usage_of (pos_part u.prompt_tokens) (pos_part u.completion_tokens) (pos_part u.total_tokens)
unfolding clamp
clamp_parts u = ground arith

-- What the normal form of three non-negative counts is: prompt and completion.
abbrev pub split : ℕ → ℕ → ℕ → ℕ × ℕ
split p c t =
    if p + c == 0
    then (0, t)
    else if (p == 0) && ltb c t
    then (t - c, c)
    else if (c == 0) && ltb p t
    then (p, t - p)
    else (p, c)

abbrev pub of_split : ℕ × ℕ → ParsedUsage
of_split s = usage_of s.0 s.1 (s.0 + s.1)

filled :
    (p c t : ℕ)
    → p + c < half_word
    → fill_completion (add64 (pos p) (pos c)) (fill_total (usage_of p c t)) ≡ (
        if p + c == 0
        then usage_of 0 t t
        else if t == 0
        then usage_of p c (p + c)
        else usage_of p c t)
unfolding fill_completion fill_total
filled p c t h = rw (add64_small p c h) (ground arith)

split_total_none : (p c t : ℕ) → 0 < p → 0 < c → split_total (usage_of p c t) ≡ usage_of p c t
unfolding split_total
split_total_none p c t h k = ground arith

split_total_prompt :
    (c t : ℕ) → c < t → 0 < c → t < half_word → split_total (usage_of 0 c t) ≡ usage_of (t - c) c t
unfolding split_total
split_total_prompt c t h k b = ground (arith, sub64_small t c)

split_total_completion :
    (p t : ℕ) → p < t → 0 < p → t < half_word → split_total (usage_of p 0 t) ≡ usage_of p (t - p) t
unfolding split_total
split_total_completion p t h k b = ground (arith, sub64_small t p)

split_total_full : (p c t : ℕ) → t ≤ p + c → split_total (usage_of p c t) ≡ usage_of p c t
unfolding split_total
split_total_full p c t h = ground arith

settle_zero : settle_total (usage_of 0 0 0) ≡ usage_of 0 0 0
unfolding settle_total add64
settle_zero = refl

settled :
    (p c t : ℕ)
    → 0 < p + c
    → p + c < half_word
    → settle_total (usage_of p c t) ≡ usage_of p c (p + c)
unfolding settle_total
settled p c t h k = rw (add64_small p c k) (ground arith)

complete_parts :
    (p c t : ℕ)
    → p + c < half_word
    → t < half_word
    → complete (usage_of p c t) ≡ of_split (split p c t)
unfolding complete
complete_parts p c t h k = rw (filled p c t h) (
    ground (
      arith,
      split_total_none p c t,
      split_total_prompt c t,
      split_total_completion p t,
      split_total_full p c t,
      split_total_full p c (p + c),
      split_total_full 0 t t,
      settled p c t,
      settled p c (p + c),
      settled 0 t t,
      settled (t - c) c t,
      settled p (t - p) t,
      settle_zero,
    ))

-- The counts that are not negative, as numbers, and that they stay in range.
abbrev pub InRange : ParsedUsage → Type 0
InRange u =
    (pos_part u.prompt_tokens + pos_part u.completion_tokens < half_word)
    × (pos_part u.total_tokens < half_word)

abbrev pub normal_form : ParsedUsage → ℕ × ℕ
normal_form u =
    split (pos_part u.prompt_tokens) (pos_part u.completion_tokens) (pos_part u.total_tokens)

-- What `normalize` returns, whatever the signs of the reported counts, when the prompt and the
-- completion count, negative ones read as 0, sum to less than 2^63: with both 0 all of the total is
-- completion; with one of them 0 and the other below the total, the missing one is the rest of the
-- total; else both are kept. The total is the sum of the two.
pub normalize-split : (u : ParsedUsage) → InRange u → normalize u ≡ of_split (normal_form u)
unfolding normalize
normalize-split u h = ap complete (clamp_parts u) ∙ complete_parts _ _ _ h.0 h.1

split-split :
    (p c t : ℕ)
    → split (split p c t).0 (split p c t).1 ((split p c t).0 + (split p c t).1) ≡ split p c t
split-split p c t = ground arith

split_bound :
    (p c t : ℕ) → p + c < half_word → t < half_word → (split p c t).0 + (split p c t).1 < half_word
split_bound p c t h k = ground arith

-- To normalise twice is to normalise once, when the counts are in range.
normalize_idem : (u : ParsedUsage) → InRange u → normalize (normalize u) ≡ normalize u
normalize_idem u h =
    let inside = split_bound _ _ (pos_part u.total_tokens) h.0 h.1 in
    ap normalize (normalize-split u h)
    ∙ normalize-split (of_split (normal_form u)) (inside, inside)
    ∙ ap of_split (
        split-split (pos_part u.prompt_tokens) (pos_part u.completion_tokens)
          (pos_part u.total_tokens))
    ∙ sym (normalize-split u h)

-- The sums of the normal forms of a list of counts: prompt, completion.
abbrev pub sums : List ParsedUsage → ℕ × ℕ
sums [] = (0, 0)
sums (u ∷ us) = ((normal_form u).0 + (sums us).0, (normal_form u).1 + (sums us).1)

add_usage-of_split :
    (a b c d : ℕ)
    → a + b + c + d < half_word
    → add_usage (of_split (a, b)) (of_split (c, d)) ≡ of_split (a + c, b + d)
unfolding add_usage
add_usage-of_split a b c d h =
    ground (arith, add64_small a c, add64_small b d, add64_small (a + b) (c + d))

aggregate_from-sums :
    (a b : ℕ) (us : List ParsedUsage)
    → All InRange us
    → a + b + (sums us).0 + (sums us).1 < half_word
    → aggregate_from (of_split (a, b)) us ≡ of_split (a + (sums us).0, b + (sums us).1)
unfolding aggregate_from
aggregate_from-sums a b [] r h = ground arith
aggregate_from-sums a b (u ∷ us) r h =
    ap (λ (n : ParsedUsage). aggregate_from (add_usage (of_split (a, b)) n) us)
      (normalize-split u r.0)
    ∙ ap (λ (n : ParsedUsage). aggregate_from n us)
        (add_usage-of_split a b (normal_form u).0 (normal_form u).1 (omega arith))
    ∙ aggregate_from-sums (a + (normal_form u).0) (b + (normal_form u).1) us r.1 (omega arith)
    ∙ ground arith

-- Over calls whose counts are in range, and whose sums are, `aggregate` returns the sums of the
-- normalised prompt and completion counts, and their sum as the total.
pub aggregate-sums :
    (us : List ParsedUsage)
    → All InRange us
    → (sums us).0 + (sums us).1 < half_word
    → aggregate us ≡ of_split (sums us)
unfolding aggregate
aggregate-sums us r h = aggregate_from-sums 0 0 us r (omega arith) ∙ ground arith

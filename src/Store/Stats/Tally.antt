-- ===== src/Store/Stats/Tally.antt =====
-- How the groups of internal/store/stats.go sum up.
use mathlib.Core.List.{Permᴰ}
use atomhub.Prelude.{
  ◌+◌, ◌≡◌, refl, ◌∙◌, ap, inl, inr, Bool, true, false, ◌||◌, List, [], ◌∷◌, map, filter, arith,
  if◌then◌else◌, Bool-cases, list_eq, list_eq_iff,
}
use atomhub.Prelude.Int.{◌+ℤ◌, +ℤ_assoc, +ℤ_swap, zero-+ℤ}
use atomhub.Text.{Text}
use atomhub.Text.Order.{text_ltb_asym, text_ltb_weak}
use atomhub.Text.Unique.{contains, IsUnique}
use atomhub.Types.{RequestLog, ModelTokenStat, TokenSummary}
use atomhub.Store.Stats.{
  no_tokens, add_row, summary_of, tokens_of, add_to_group, groups, larger_total,
}

-- Two sums as one.
abbrev pub add_tokens : TokenSummary → TokenSummary → TokenSummary
add_tokens a b = record {
  prompt_tokens = a.prompt_tokens +ℤ b.prompt_tokens;
  completion_tokens = a.completion_tokens +ℤ b.completion_tokens;
  total_tokens = a.total_tokens +ℤ b.total_tokens;
  request_count = a.request_count + b.request_count;
}

-- The items whose models pass a test, summed up.
abbrev pub tally : (Text → Bool) → List ModelTokenStat → TokenSummary
tally test [] = no_tokens
tally test (item ∷ items) =
    if test item.model then add_tokens (tokens_of item) (tally test items) else tally test items

-- The rows of the log whose models pass a test.
abbrev pub logs_of : (Text → Bool) → List RequestLog → List RequestLog
logs_of test = filter (λ (r : RequestLog). test r.model)

add_tokens-add_row :
    (row : RequestLog) (a b : TokenSummary)
    → add_tokens (add_row row a) b ≡ add_row row (add_tokens a b)
unfolding add_row
add_tokens-add_row row a b = ground (
  arith,
  +ℤ_assoc row.usage.prompt_tokens a.prompt_tokens b.prompt_tokens,
  +ℤ_assoc row.usage.completion_tokens a.completion_tokens b.completion_tokens,
  +ℤ_assoc row.usage.total_tokens a.total_tokens b.total_tokens,
)

add_tokens_swap :
    (a b c : TokenSummary) → add_tokens a (add_tokens b c) ≡ add_tokens b (add_tokens a c)
add_tokens_swap a b c = ground (
  arith,
  +ℤ_swap a.prompt_tokens b.prompt_tokens c.prompt_tokens,
  +ℤ_swap a.completion_tokens b.completion_tokens c.completion_tokens,
  +ℤ_swap a.total_tokens b.total_tokens c.total_tokens,
)

add_tokens_over_row :
    (row : RequestLog) (a b : TokenSummary)
    → add_tokens a (add_row row b) ≡ add_row row (add_tokens a b)
unfolding add_row
add_tokens_over_row row a b = ground (
  arith,
  +ℤ_swap a.prompt_tokens row.usage.prompt_tokens b.prompt_tokens,
  +ℤ_swap a.completion_tokens row.usage.completion_tokens b.completion_tokens,
  +ℤ_swap a.total_tokens row.usage.total_tokens b.total_tokens,
)

no_tokens-add_tokens : (a : TokenSummary) → add_tokens no_tokens a ≡ a
no_tokens-add_tokens a =
    ground (arith, zero-+ℤ a.prompt_tokens, zero-+ℤ a.completion_tokens, zero-+ℤ a.total_tokens)

module _ (test : Text → Bool) where
  tally-add_to_group :
      (row : RequestLog) (items : List ModelTokenStat)
      → tally test (add_to_group row items)
        ≡ (if test row.model then add_row row (tally test items) else tally test items)
  unfolding add_to_group
  tally-add_to_group row [] = elim (Bool-cases (test row.model)) [
    | inl e ↦ rw e (
        add_tokens-add_row row no_tokens no_tokens
        ∙ ap (add_row row) (no_tokens-add_tokens no_tokens))
    | inr e ↦ rw e refl
  ]
  tally-add_to_group row (item ∷ items) = elim (Bool-cases (list_eq item.model row.model)) [
    | inl e ↦
        let same = (list_eq_iff item.model row.model).0 e in
        elim (Bool-cases (test row.model)) [
          | inl k ↦
              rw (e, ap test same ∙ k, k)
                (add_tokens-add_row row (tokens_of item) (tally test items))
          | inr k ↦ rw (e, ap test same ∙ k, k) refl
        ]
    | inr e ↦
        rw (e, tally-add_to_group row items)
          (elim (Bool-cases (test row.model)) [
            | inl k ↦ elim (Bool-cases (test item.model)) [
              | inl l ↦ rw (k, l) (add_tokens_over_row row (tokens_of item) (tally test items))
              | inr l ↦ rw (k, l) refl
            ]
            | inr k ↦ rw k refl
          ])
  ]

  pub tally-groups :
      (rows : List RequestLog) → tally test (groups rows) ≡ summary_of (logs_of test rows)
  unfolding groups summary_of
  tally-groups [] = refl
  tally-groups (row ∷ rows) =
      tally-add_to_group row (groups rows) ∙ elim (Bool-cases (test row.model)) [
        | inl e ↦ rw e (ap (add_row row) (tally-groups rows))
        | inr e ↦ rw e (tally-groups rows)
      ]

  pub tally-perm : {xs ys : List ModelTokenStat} → Permᴰ xs ys → tally test xs ≡ tally test ys
  tally-perm Permᴰ.nil = refl
  tally-perm (Permᴰ.cons {a = a} {b = b} {l₁ = l} {l₂ = m} e p) = rw (e, tally-perm p) refl
  tally-perm (Permᴰ.swap {a = a} {b = b} {a' = a'} {b' = b'} {l = l} e f) =
      rw (e, f)
        (elim (Bool-cases (test a'.model)) [
          | inl k ↦ elim (Bool-cases (test b'.model)) [
            | inl n ↦ rw (k, n) (add_tokens_swap _ _ _)
            | inr n ↦ rw (k, n) refl
          ]
          | inr k ↦ rw k refl
        ])
  tally-perm (Permᴰ.trans p q) = tally-perm p ∙ tally-perm q

-- The models of the items.
abbrev pub models_of : List ModelTokenStat → List Text
models_of = map (λ (item : ModelTokenStat). item.model)

contains-add_to_group :
    (value : Text) (row : RequestLog) (items : List ModelTokenStat)
    → contains value (models_of (add_to_group row items))
      ≡ (list_eq row.model value || contains value (models_of items))
unfolding add_to_group
contains-add_to_group value row [] = refl
contains-add_to_group value row (item ∷ items) = elim (Bool-cases (list_eq item.model row.model)) [
  | inl e ↦
      rw e (ground (arith, ap (λ m. list_eq m value) ((list_eq_iff item.model row.model).0 e)))
  | inr e ↦ rw e (ground (arith, contains-add_to_group value row items))
]

add_to_group-IsUnique :
    (row : RequestLog) (items : List ModelTokenStat)
    → IsUnique (models_of items)
    → IsUnique (models_of (add_to_group row items))
unfolding add_to_group
add_to_group-IsUnique row [] h = (refl, tt)
add_to_group-IsUnique row (item ∷ items) h = elim (Bool-cases (list_eq item.model row.model)) [
  | inl e ↦ rw e h
  | inr e ↦ rw e (
    ground (
      arith,
      contains-add_to_group item.model row items,
      list_eq_iff item.model row.model,
      list_eq_iff row.model item.model,
    ),
    add_to_group-IsUnique row items h.1,
  )
]

pub groups-IsUnique : (rows : List RequestLog) → IsUnique (models_of (groups rows))
unfolding groups
groups-IsUnique [] = tt
groups-IsUnique (row ∷ rows) = add_to_group-IsUnique row (groups rows) (groups-IsUnique rows)

pub models-perm : {xs ys : List ModelTokenStat} → Permᴰ xs ys → Permᴰ (models_of xs) (models_of ys)
models-perm Permᴰ.nil = Permᴰ.nil
models-perm (Permᴰ.cons e p) = Permᴰ.cons (ap (λ (i : ModelTokenStat). i.model) e) (models-perm p)
models-perm (Permᴰ.swap e f) =
    Permᴰ.swap (ap (λ (i : ModelTokenStat). i.model) e) (ap (λ (i : ModelTokenStat). i.model) f)
models-perm (Permᴰ.trans p q) = Permᴰ.trans (models-perm p) (models-perm q)

pub larger_total_asym : (a b : ModelTokenStat) → larger_total a b ≡ true → larger_total b a ≡ false
larger_total_asym a b h = ground (arith, text_ltb_asym a.model b.model)

pub larger_total_weak :
    (a b c : ModelTokenStat)
    → larger_total b a ≡ false
    → larger_total c b ≡ false
    → larger_total c a ≡ false
larger_total_weak a b c h k = ground (arith, text_ltb_weak a.model b.model c.model)

pub logs_of_all : (rows : List RequestLog) → logs_of (λ m. true) rows ≡ rows
logs_of_all [] = refl
logs_of_all (row ∷ rows) = ap (◌∷◌ row) (logs_of_all rows)

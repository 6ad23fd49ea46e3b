-- ===== src/Gateway/Stream/Delivery.antt =====
-- What the loop of `streamOpenAI` in internal/app/streaming.go delivers: the events of the upstream's
-- stream, and the usage that they report.
use mathlib.Core.List.{Memᴰ}
use atomhub.Prelude.{
  ◌≡◌, refl, inl, inr, ◌⊎◌, true, false, List, [], ◌∷◌, ◌++◌, Option, none, some, arith, All,
  Bool-cases,
}
use atomhub.Prelude.Int.{ℤ, ltb_ℤ}
use atomhub.Text.{Text, codes}
use atomhub.Types.{UsageTokens, Result, ok, err}
use atomhub.Gateway.Api.{UsageMap, usage_value}
use atomhub.Gateway.Stream.{Sse, Ended, larger, merge_usage_tokens, relay}
use atomhub.Gateway.Stream.Relay.{Whole, Cut, payloads, usage_after, relay-Relayed}
use atomhub.Gateway.Stream.Breaks.{Excused, relay-Excused}
use atomhub.Gateway.Stream.Meaning.{Reads, payloads-Reads}

-- The number is one of those of the list, and none of them is larger.
abbrev pub IsLargest : List ℤ → ℤ → Type 0
IsLargest ns n = Memᴰ n ns × All (λ m. ltb_ℤ n m ≡ false) ns

-- the counts of a name in what is read of a chunk
abbrev pub counts_of : Text → Result (Option UsageMap) → List ℤ
counts_of name (err e) = []
counts_of name (ok none) = []
counts_of name (ok (some m)) = usage_value m name ∷ []

module _ (chunk_usage : Text → Result (Option UsageMap)) where
  -- the counts of a name in the payloads that are chunks with a usage
  abbrev pub reported : Text → List Text → List ℤ
  reported name [] = []
  reported name (p ∷ ps) = counts_of name (chunk_usage p) ++ reported name ps

  -- Each count is the largest of the first one and those reported.
  pub record LargestUsage (initial : UsageTokens) (ps : List Text) (u : UsageTokens) : Type 0 where
    pub prompt :
        IsLargest (initial.prompt_tokens ∷ reported (codes "prompt_tokens") ps) u.prompt_tokens
    pub completion :
        IsLargest
          (initial.completion_tokens ∷ reported (codes "completion_tokens") ps)
          u.completion_tokens
    pub total : IsLargest (initial.total_tokens ∷ reported (codes "total_tokens") ps) u.total_tokens

  -- What the client has and what is returned, for the payloads that the lines carry.
  pub record Delivered (failure : Option Text) (initial : UsageTokens) (lines : List Text) (s : Sse)
      (r : Ended) : Type 0 where
    pub payloads_of : List Text
    pub reads : Reads lines payloads_of
    pub usage : UsageTokens
    pub largest : LargestUsage initial payloads_of usage
    pub ends :
        Whole usage (payloads_of ++ codes "[DONE]" ∷ []) s r
        ⊎ Cut (payloads_of ++ codes "[DONE]" ∷ []) s r
    pub excused : Excused failure s r.0.1

  larger-IsLargest :
      (a b n : ℤ) (ns : List ℤ) → IsLargest (larger a b ∷ ns) n → IsLargest (a ∷ b ∷ ns) n
  unfolding larger
  larger-IsLargest a b n ns h = elim (Bool-cases (ltb_ℤ a b)) [
    | inl e ↦ taken e (rw e at h)
    | inr e ↦ kept e (rw e at h)
  ]
    where
      taken : ltb_ℤ a b ≡ true → IsLargest (b ∷ ns) n → IsLargest (a ∷ b ∷ ns) n
      taken e h = (Memᴰ.tail h.0, (let low = h.1.0 in ground (arith, e), h.1))

      kept : ltb_ℤ a b ≡ false → IsLargest (a ∷ ns) n → IsLargest (a ∷ b ∷ ns) n
      kept e (Memᴰ.head it, all) =
          (Memᴰ.head it, (all.0, (let low = all.0 in ground (arith, e), all.1)))
      kept e (Memᴰ.tail rest, all) =
          (Memᴰ.tail (Memᴰ.tail rest), (all.0, (let low = all.0 in ground (arith, e), all.1)))

  alone : (n : ℤ) → IsLargest (n ∷ []) n
  alone n = (Memᴰ.head refl, (ground arith, tt))

  -- the usage that the rest of the payloads is read with
  abbrev absorbed : UsageTokens → Result (Option UsageMap) → UsageTokens
  absorbed usage r = elim r [ err e ↦ usage | ok incoming ↦ merge_usage_tokens usage incoming ]

  -- one payload more, of which r is read
  abbrev Largest : UsageTokens → Result (Option UsageMap) → List Text → UsageTokens → Type 0
  Largest initial r ps u =
      IsLargest
        (initial.prompt_tokens ∷ counts_of (codes "prompt_tokens") r
          ++ reported (codes "prompt_tokens") ps)
        u.prompt_tokens
      × IsLargest
          (initial.completion_tokens ∷ counts_of (codes "completion_tokens") r
            ++ reported (codes "completion_tokens") ps)
          u.completion_tokens
      × IsLargest
          (initial.total_tokens ∷ counts_of (codes "total_tokens") r
            ++ reported (codes "total_tokens") ps)
          u.total_tokens

  one_more :
      (initial : UsageTokens) (r : Result (Option UsageMap)) (ps : List Text)
      → ((u : UsageTokens) → LargestUsage u ps (usage_after chunk_usage u ps))
      → Largest initial r ps (usage_after chunk_usage (absorbed initial r) ps)
  unfolding merge_usage_tokens
  one_more initial (err x) ps later =
      ((later initial).prompt, (later initial).completion, (later initial).total)
  one_more initial (ok none) ps later =
      ((later initial).prompt, (later initial).completion, (later initial).total)
  one_more initial (ok (some m)) ps later =
      let h = later (merge_usage_tokens initial (some m)) in
      (
        larger-IsLargest _ _ _ _ h.prompt,
        larger-IsLargest _ _ _ _ h.completion,
        larger-IsLargest _ _ _ _ h.total,
      )

  usage_after-LargestUsage :
      (initial : UsageTokens) (ps : List Text)
      → LargestUsage initial ps (usage_after chunk_usage initial ps)
  usage_after-LargestUsage initial [] = record {
    prompt = alone initial.prompt_tokens;
    completion = alone initial.completion_tokens;
    total = alone initial.total_tokens;
  }
  usage_after-LargestUsage initial (p ∷ ps) =
      let h = one_more initial (chunk_usage p) ps (λ u. usage_after-LargestUsage u ps) in
      record { prompt = h.0; completion = h.1; total = h.2 }

  -- Of an upstream's stream the client gets the payload of each event in order, trimmed, up to the end
  -- marker, and then one end marker, also where the upstream sends none; comments, blank lines and
  -- other fields are dropped. The usage that is returned is, for each count, the largest of the one
  -- before and those that the chunks report. There is an error only where a write to the client or the
  -- upstream's stream breaks, and then what was sent is the events before one that is missing, and the
  -- end marker is not among them.
  pub relay-Delivered :
      (failure : Option Text) (initial : UsageTokens) (lines : List Text) (s : Sse)
      → Delivered failure initial lines s (relay chunk_usage failure initial lines s)
  relay-Delivered failure initial lines s = record {
    payloads_of = payloads lines;
    reads = payloads-Reads lines;
    usage = usage_after chunk_usage initial (payloads lines);
    largest = usage_after-LargestUsage initial (payloads lines);
    ends = relay-Relayed chunk_usage failure initial lines s;
    excused = relay-Excused chunk_usage failure initial lines s;
  }

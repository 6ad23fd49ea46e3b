-- ===== src/Store/Stats/Sound.antt =====
-- The statistics change nothing.
use atomhub.Server.Invariant.{
  Maintains, Maintains-bind, Maintains-pure, Maintains-fail, Maintains-if, Maintains-query,
}
use atomhub.Store.Sound.{IsSound}
use atomhub.Store.Stats.{all_fit, fits, or_overflow, query_groups, query_summary, token_stats}

pub token_stats-Maintains : Maintains IsSound token_stats
unfolding token_stats query_groups query_summary or_overflow
token_stats-Maintains =
    Maintains-bind
      (Maintains-bind (Maintains-query _)
        (λ items. Maintains-if (all_fit items) (Maintains-pure _) (Maintains-fail _)))
      (λ items.
        Maintains-bind
          (Maintains-bind (Maintains-query _)
            (λ summary. Maintains-if (fits summary) (Maintains-pure _) (Maintains-fail _)))
          (λ summary. Maintains-pure _))

-- ===== src/Store/Stats/Examples.antt =====
-- The statistics of the sample server.
use atomhub.Prelude.{◌≡◌, refl, length, list_eq}
use atomhub.Server.Outcome.{Outcome, Untouched}
use atomhub.Samples.{busy}
use atomhub.Store.Stats.{groups, token_stats}
use atomhub.Store.Stats.Report.{Reports, Unreported, token_stats-Reports}

token_stats-Reports_example :
    Outcome
      (λ e t. Untouched busy t × Unreported busy.tables.request_logs e)
      (λ v t. Reports busy.tables.request_logs v.0 v.1 × Untouched busy t)
      token_stats
      busy
token_stats-Reports_example = token_stats-Reports busy

-- two models, the one of two requests with their sums
test_groups : length (groups busy.tables.request_logs) ≡ 2
unfolding groups list_eq
test_groups = refl

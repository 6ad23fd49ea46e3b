-- ===== src/Store/State/Examples.antt =====
-- The health of a key of the sample server.
use atomhub.Prelude.{false, length, ◌≡◌, [], ◌∷◌, map}
use atomhub.Prelude.Sort.{sort}
use atomhub.Types.{database}
use atomhub.Server.Outcome.{Untouched, Outcome, next_reading}
use atomhub.Samples.{sample}
use atomhub.Store.State.{overview, record_failure, mark_success, candidates, lower_id}
use atomhub.Store.State.Recovery.{Recovers, record_failure-Recovers}
use atomhub.Store.State.Failure.{Quiet}
use atomhub.Store.State.Marks.{MarkedHealthy, mark_success-MarkedHealthy}
use atomhub.Store.State.Overview.{counted, overview-total}
use atomhub.Store.State.Candidates.{as_candidate, candidates-eq}

mark_success-MarkedHealthy_example :
    Outcome (λ x t. Quiet sample t) (λ u t. MarkedHealthy 1 sample t) (mark_success 1) sample
mark_success-MarkedHealthy_example = mark_success-MarkedHealthy 1 sample

candidates-eq_example :
    Outcome
      (λ e t. Quiet sample t)
      (λ cs t.
        (cs ≡ sort lower_id (map (as_candidate (next_reading sample) sample) (2 ∷ 1 ∷ [])))
        × Quiet sample t)
      (candidates (2 ∷ 1 ∷ []))
      sample
candidates-eq_example = candidates-eq (2 ∷ 1 ∷ []) sample

overview-total_example :
    Outcome
      (λ e t. Untouched sample t)
      (λ o t. (o.total ≡ length sample.tables.key_state) × (counted o ≡ o.total))
      overview
      sample
overview-total_example = overview-total sample

record_failure-Recovers_example :
    Outcome
      (λ x t. Quiet sample t)
      (λ u t. Recovers sample 1 t)
      (record_failure false 1 database)
      sample
record_failure-Recovers_example = record_failure-Recovers false 1 database sample

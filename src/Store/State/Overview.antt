-- ===== src/Store/State/Overview.antt =====
-- The summary of the keys' health: `Overview` of internal/store/state.go.
use atomhub.Prelude.{ℕ, ◌+◌, ◌≡◌, List, [], ◌∷◌, arith, length}
use atomhub.Types.{KeyState, HealthOverview}
use atomhub.Server.{Server}
use atomhub.Server.Outcome.{
  Outcome, Outcome-bind, Outcome-query, Outcome-now, Outcome-pure, next_reading, Untouched,
  Untouched-with_faults,
}
use atomhub.Store.State.{count_status, count_all, no_keys, overview}

-- The keys of the four kinds together.
abbrev pub counted : HealthOverview → ℕ
counted o = o.healthy + o.degraded + o.cooling_down + o.disabled

count_status-counts :
    (time : ℕ) (o : HealthOverview) (row : KeyState)
    → (counted (count_status time o row) ≡ counted o + 1)
      × ((count_status time o row).total ≡ o.total + 1)
unfolding count_status
count_status-counts time o row = (ground arith, ground arith)

count_all-counts :
    (time : ℕ) (o : HealthOverview) (rows : List KeyState)
    → (counted (count_all time o rows) ≡ counted o + length rows)
      × ((count_all time o rows).total ≡ o.total + length rows)
unfolding count_all
count_all-counts time o [] = (omega arith, omega arith)
count_all-counts time o (row ∷ rows) =
    let here = count_status-counts time o row in
    let rest = count_all-counts time (count_status time o row) rows in
    (omega (arith, here.0, rest.0), omega (arith, here.1, rest.1))

-- The total of a summary is the number of the rows, and the four kinds make it up: each row is counted
-- once. If the query fails nothing is changed.
pub overview-total :
    (s : Server)
    → Outcome
        (λ e t. Untouched s t)
        (λ o t. (o.total ≡ length s.tables.key_state) × (counted o ≡ o.total))
        overview
        s
unfolding overview
overview-total s = Outcome-bind (
    Outcome-query _ (λ fs. Untouched-with_faults)
      (λ fs. Outcome-bind (
        Outcome-now λ rs.
          let counts = count_all-counts (next_reading s) no_keys s.tables.key_state in
          Outcome-pure ((omega (arith, counts.1), omega (arith, counts.0, counts.1))))))

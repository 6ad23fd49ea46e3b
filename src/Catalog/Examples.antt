-- ===== src/Catalog/Examples.antt =====
-- The catalog of the sample server.
use atomhub.Prelude.{◌≡◌}
use atomhub.Types.{database}
use atomhub.Server.Outcome.{Outcome, Untouched}
use atomhub.Samples.{sample}
use atomhub.Catalog.{rebuild}
use atomhub.Catalog.Lookup.{Indexes, rebuild-Indexes}

rebuild-Indexes_example :
    Outcome (λ e t. (e ≡ database) × Untouched sample t) (λ u t. Indexes sample t) rebuild sample
rebuild-Indexes_example = rebuild-Indexes sample

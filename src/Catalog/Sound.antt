-- ===== src/Catalog/Sound.antt =====
-- A rebuild of internal/catalog/catalog.go keeps the tables sound.
use atomhub.Server.Invariant.{Maintains, Maintains-bind}
use atomhub.Store.Keys.Sound.{list-Maintains}
use atomhub.Store.Models.Sound.{list_all-Maintains}
use atomhub.Store.Sound.{IsSound}
use atomhub.Catalog.{rebuild}

pub rebuild-Maintains : Maintains IsSound rebuild
unfolding rebuild
rebuild-Maintains =
    Maintains-bind list-Maintains
      (λ keys. Maintains-bind list_all-Maintains (λ models. record { at = λ s h. h }))

-- ===== src/Store/Logs/Sound.antt =====
-- The operations of internal/store/logs.go keep the tables sound.
use atomhub.Prelude.{ℕ, zero, suc, refl, Option, none, some}
use atomhub.Types.{UsageTokens}
use atomhub.Server.Invariant.{
  Maintains, Maintains-bind, Maintains-pure, Maintains-query, Maintains-change,
  Maintains-driver_call, Maintains-transaction, Maintains-now,
}
use atomhub.Store.Sound.{IsSound}
use atomhub.Store.Sound.Statements.{insert_log-IsSound, update_client-IsSound}
use atomhub.Store.Logs.{
  Entry, count_request, count_client, record_client, insert_rows, insert, list_recent,
}

record_client-Maintains :
    (u : UsageTokens) (time : ℕ) (o : Option ℕ) → Maintains IsSound (record_client u time o)
unfolding record_client count_client
record_client-Maintains u time none = Maintains-pure _
record_client-Maintains u time (some zero) = Maintains-pure _
record_client-Maintains u time (some (suc n)) = Maintains-change _ (λ t s.
    update_client-IsSound s (suc n) (count_request u time) (λ r. unfold count_request in refl)
      (λ r. unfold count_request in refl))

insert_rows-Maintains : (entry : Entry) (time : ℕ) → Maintains IsSound (insert_rows entry time)
unfolding insert_rows
insert_rows-Maintains entry time =
    Maintains-bind (Maintains-change _ (λ t s. insert_log-IsSound s entry time)) (λ id.
      Maintains-bind Maintains-driver_call
        (λ u. Maintains-bind (record_client-Maintains _ _ _) (λ v. Maintains-pure _)))

pub insert-Maintains : (entry : Entry) → Maintains IsSound (insert entry)
unfolding insert
insert-Maintains entry =
    Maintains-bind Maintains-now
      (λ time. Maintains-transaction _ (insert_rows-Maintains entry time))

pub list_recent-Maintains : (limit : ℕ) → Maintains IsSound (list_recent limit)
unfolding list_recent
list_recent-Maintains limit = Maintains-query _

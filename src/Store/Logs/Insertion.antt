-- ===== src/Store/Logs/Insertion.antt =====
-- `Insert` of internal/store/logs.go writes the log row and the client's totals together, or neither.
use atomhub.Prelude.{
  ℕ, zero, suc, ◌+◌, ◌≡◌, refl, Bool, false, List, [], ◌∷◌, ◌++◌, Option, none, some, ◌==◌,
  if◌then◌else◌, find?, ap, ◌∙◌,
}
use mathlib.Core.Option
use atomhub.Types.{Error, database, UsageTokens, DownstreamKey}
use atomhub.Server.{Server, Tables}
use atomhub.Server.Outcome.{
  Outcome, Outcome-bind, Outcome-mono, Outcome-pure, Outcome-driver_call, Outcome-exec, Outcome-now,
  Outcome-transaction, SameMemory, Untouched, Leaves, next_reading,
}
use atomhub.Store.Rows.{find-update_where}
use atomhub.Store.Logs.{
  Entry, log_row, has_id, insert_log, count_request, count_client, record_client, insert_rows,
  insert,
}

-- The client that a request is charged to, if there is one.
abbrev pub charged : Option ℕ → Option ℕ
charged none = none
charged (some zero) = none
charged (some (suc n)) = some (suc n)

abbrev pub client : ℕ → Tables → Option DownstreamKey
client j t = find? (has_id j) t.downstream_keys

abbrev pub is_charged : ℕ → Option ℕ → Bool
is_charged j none = false
is_charged j (some d) = d == j

-- One log row more, under the next id; one request more in the totals of the client, if the request
-- has one; every other client and every other table as they were.
pub record Logged (entry : Entry) (time : ℕ) (s t : Server) : Type 0 where
  pub logs :
      t.tables.request_logs
      ≡ s.tables.request_logs ++ log_row entry (s.tables.sequences.request_logs + 1) time ∷ []
  pub clients :
      (j : ℕ)
      → client j t.tables ≡ (
          if is_charged j (charged entry.downstream_key_id)
          then Option.map (count_request entry.usage time) (client j s.tables)
          else client j s.tables)
  pub keys : t.tables.upstream_keys ≡ s.tables.upstream_keys
  pub models : t.tables.key_models ≡ s.tables.key_models
  pub states : t.tables.key_state ≡ s.tables.key_state
  pub memory : SameMemory s t

client-count_client :
    (u : UsageTokens) (time d j : ℕ) (t : Tables)
    → client j (count_client u time d t)
      ≡ (if d == j then Option.map (count_request u time) (client j t) else client j t)
unfolding count_client count_request
client-count_client u time d j t =
    find-update_where (λ (r : DownstreamKey). r.id) d j (count_request u time) t.downstream_keys
      (λ r. refl)

abbrev charge : UsageTokens → ℕ → Option ℕ → Tables → Tables
charge u time none t = t
charge u time (some d) t = count_client u time d t

client-charge :
    (u : UsageTokens) (time j : ℕ) (c : Option ℕ) (t : Tables)
    → client j (charge u time c t)
      ≡ (if is_charged j c then Option.map (count_request u time) (client j t) else client j t)
client-charge u time j none t = refl
client-charge u time j (some d) t = client-count_client u time d j t

abbrev without_clients : Tables → Tables
without_clients t = record t { downstream_keys = [] }

charge-rest :
    (u : UsageTokens) (time : ℕ) (c : Option ℕ) (t : Tables)
    → without_clients (charge u time c t) ≡ without_clients t
unfolding count_client
charge-rest u time none t = refl
charge-rest u time (some d) t = refl

record_client-Leaves :
    {s : Server} (u : UsageTokens) (time : ℕ) (id : Option ℕ)
    → Outcome
        (λ e t. (e ≡ database) × SameMemory s t)
        (λ v t. Leaves (charge u time (charged id) s.tables) s t)
        (record_client u time id)
        s
unfolding record_client
record_client-Leaves u time none =
    Outcome-pure
      (record { tables = refl; memory = record { inflight = refl; keys_by_model = refl } })
record_client-Leaves u time (some zero) =
    Outcome-pure
      (record { tables = refl; memory = record { inflight = refl; keys_by_model = refl } })
record_client-Leaves u time (some (suc n)) =
    Outcome-exec _ tt _ refl (λ fs. (refl, record { inflight = refl; keys_by_model = refl }))
      (λ fs. record { tables = refl; memory = record { inflight = refl; keys_by_model = refl } })

written :
    {s t : Server} (entry : Entry) (time : ℕ)
    → Leaves
        (charge entry.usage time
          (charged entry.downstream_key_id)
          (insert_log entry time s.tables).1)
        s
        t
    → Logged entry time s t
unfolding insert_log
written {s} entry time h =
    let same =
      ap without_clients h.tables
      ∙ charge-rest entry.usage time (charged entry.downstream_key_id)
          (insert_log entry time s.tables).1 in
    record {
      logs = ap (λ (r : Tables). r.request_logs) same;
      clients = λ j.
          ap (client j) h.tables
          ∙ client-charge entry.usage time j (charged entry.downstream_key_id)
              (insert_log entry time s.tables).1;
      keys = ap (λ (r : Tables). r.upstream_keys) same;
      models = ap (λ (r : Tables). r.key_models) same;
      states = ap (λ (r : Tables). r.key_state) same;
      memory = h.memory;
    }

-- A success leaves the log row and the client's totals written. A failure, whichever of the database
-- calls it is of, leaves every table as it was.
pub insert-Logged :
    (entry : Entry) (s : Server)
    → Outcome
        (λ e t. (e ≡ database) × Untouched s t)
        (λ id t. (id ≡ s.tables.sequences.request_logs + 1) × Logged entry (next_reading s) s t)
        (insert entry)
        s
unfolding insert insert_rows insert_log
insert-Logged entry s = Outcome-bind (
    Outcome-now λ rs.
      Outcome-transaction _ (λ fs. failed)
        λ fs. Outcome-bind (
          Outcome-exec _ _ _ refl (λ gs. failed)
            λ gs. Outcome-bind (
              Outcome-driver_call (λ gs. failed)
                λ gs. Outcome-bind (
                  Outcome-mono
                    (record_client-Leaves entry.usage (next_reading s) entry.downstream_key_id)
                    (λ e t h. (
                      h.0,
                      record {
                        tables = refl;
                        memory = record {
                          inflight = h.1.inflight;
                          keys_by_model = h.1.keys_by_model;
                        };
                      },
                    ))
                    (λ v t h. Outcome-pure (
                      (λ hs. (
                        refl,
                        record {
                          tables = refl;
                          memory = record {
                            inflight = h.memory.inflight;
                            keys_by_model = h.memory.keys_by_model;
                          };
                        },
                      )),
                      (λ hs. (
                        refl,
                        written entry (next_reading s) (record {
                          tables = h.tables;
                          memory = record {
                            inflight = h.memory.inflight;
                            keys_by_model = h.memory.keys_by_model;
                          };
                        }),
                      )),
                    ))))))
  where
    failed :
        {fs : List Bool} {rs : List ℕ}
        → (◌≡◌ {A = Error} database database)
          × Untouched s (record s { clock = next_reading s; readings = rs; faults = fs })
    failed =
        (refl, record { tables = refl; memory = record { inflight = refl; keys_by_model = refl } })

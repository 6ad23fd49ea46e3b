-- ===== src/Store/Keys/Deletion.antt =====
-- `Delete` of internal/store/keys.go removes a key from four tables, or from none.
use atomhub.Prelude.{
  ℕ, ◌≡◌, refl, ◌⊎◌, inl, inr, Bool, true, false, List, [], ◌==◌, if◌then◌else◌, Bool-cases,
}
use atomhub.Types.{Error, database, key_not_found, UpstreamKey, KeyModel, KeyState, RequestLog}
use atomhub.Server.{Server}
use atomhub.Server.Outcome.{
  Untouched-with_faults, Outcome, Outcome-bind, Outcome-pure, Outcome-fail, Outcome-driver_call,
  Outcome-exec, Outcome-transaction, SameMemory, Untouched,
}
use atomhub.Store.Rows.{exists_where, rows_of, rows_of-delete_where}
use atomhub.Store.Keys.{
  has_id, require_rows, delete_models, delete_state, delete_logs, delete_row, delete_all, delete,
}

abbrev pub IsStored : ℕ → Server → Type 0
IsStored k s = exists_where (has_id k) s.tables.upstream_keys ≡ true

abbrev pub keys_of : ℕ → Server → List UpstreamKey
keys_of j s = rows_of (λ (r : UpstreamKey). r.id) j s.tables.upstream_keys

abbrev pub models_of : ℕ → Server → List KeyModel
models_of j s = rows_of (λ (r : KeyModel). r.key_id) j s.tables.key_models

abbrev pub states_of : ℕ → Server → List KeyState
states_of j s = rows_of (λ (r : KeyState). r.key_id) j s.tables.key_state

abbrev pub logs_of : ℕ → Server → List RequestLog
logs_of j s = rows_of (λ (r : RequestLog). r.key_id) j s.tables.request_logs

-- Of the key itself every row is gone, in each of the four tables; of any other key every row is
-- kept.
pub record Gone (k : ℕ) (s t : Server) : Type 0 where
  pub keys : (j : ℕ) → keys_of j t ≡ (if k == j then [] else keys_of j s)
  pub models : (j : ℕ) → models_of j t ≡ (if k == j then [] else models_of j s)
  pub states : (j : ℕ) → states_of j t ≡ (if k == j then [] else states_of j s)
  pub logs : (j : ℕ) → logs_of j t ≡ (if k == j then [] else logs_of j s)
  pub clients : t.tables.downstream_keys ≡ s.tables.downstream_keys
  pub memory : SameMemory s t

-- Why a deletion fails.
abbrev pub Refused : ℕ → Server → Error → Type 0
Refused k s e =
    (e ≡ database)
    ⊎ ((e ≡ key_not_found) × (exists_where (has_id k) s.tables.upstream_keys ≡ false))

-- A deletion that succeeds found the key, and leaves none of its rows and all the rows of every
-- other key. One that fails leaves every table as it was: either a call of the database failed, any
-- of them, or there is no such key.
pub delete-Gone :
    (k : ℕ) (s : Server)
    → Outcome (λ e t. Untouched s t × Refused k s e) (λ u t. IsStored k s × Gone k s t) (delete k) s
unfolding delete delete_all require_rows delete_models delete_state delete_logs delete_row
delete-Gone k s =
    Outcome-transaction _ (λ fs. failed)
      λ fs. Outcome-bind (
        Outcome-exec _ tt _ refl (λ gs. failed)
          λ gs. Outcome-bind (
            Outcome-exec _ tt _ refl (λ gs. failed)
              λ gs. Outcome-bind (
                Outcome-exec _ tt _ refl (λ gs. failed)
                  λ gs. Outcome-bind (
                    Outcome-exec _ _ _ refl (λ gs. failed)
                      λ gs. Outcome-bind (
                        Outcome-driver_call (λ gs. failed)
                          λ gs. elim (Bool-cases (exists_where (has_id k) s.tables.upstream_keys)) [
                            | inl e ↦ rw e (Outcome-pure (λ hs. failed', λ hs. (refl, gone)))
                            | inr e ↦ rw e (Outcome-fail (Untouched-with_faults, inr (refl, refl)))
                          ])))))
  where
    failed : {fs : List Bool} → Untouched s (record s { faults = fs }) × Refused k s database
    failed = (Untouched-with_faults, inl refl)

    failed' :
        {fs : List Bool}
        → Untouched s (record s { faults = fs })
          × ((◌≡◌ {A = Error} database database)
              ⊎ ((◌≡◌ {A = Error} database key_not_found) × (◌≡◌ {A = Bool} true false)))
    failed' = (Untouched-with_faults, inl refl)

    gone :
        {fs : List Bool}
        → Gone k s (record s {
          tables = delete_row k (delete_logs k (delete_state k (delete_models k s.tables)));
          faults = fs;
        })
    gone = record {
      keys = λ j. rows_of-delete_where (λ (r : UpstreamKey). r.id) k j s.tables.upstream_keys;
      models = λ j. rows_of-delete_where (λ (r : KeyModel). r.key_id) k j s.tables.key_models;
      states = λ j. rows_of-delete_where (λ (r : KeyState). r.key_id) k j s.tables.key_state;
      logs = λ j. rows_of-delete_where (λ (r : RequestLog). r.key_id) k j s.tables.request_logs;
      clients = refl;
      memory = record { inflight = refl; keys_by_model = refl };
    }

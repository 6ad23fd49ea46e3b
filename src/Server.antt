-- ===== src/Server.antt =====
-- The state that the handlers share, and the effects that they have on it.
-- The tables are those of internal/store/migrate.go. `App` of internal/app/app.go holds the stores,
-- which have no state of their own but the database, and the maps `inflight` of
-- internal/store/state.go and `keysByModel` of internal/catalog/catalog.go.
-- What the environment decides is a part of the state that is consumed: `faults` says of each call
-- of the database driver whether it fails, `readings` what the clock shows when it is read, and
-- `random` what the system's random source yields.
pub mod Keeps
pub mod Outcome
pub mod Invariant
pub mod Wrapped
use atomhub.Prelude.{ℕ, Bool, true, false, List, [], ◌∷◌, Option, none, some}
use atomhub.Text.{Text}
use atomhub.Schema.{Schema}
use atomhub.Types.{
  UpstreamKey, KeyModel, KeyState, DownstreamKey, RequestLog, Error, database, constraint, Result,
  ok, err,
}

-- AdminUser of internal/store/admin.go
pub record AdminUser : Type 0 where
  pub id : ℕ
  pub username : Text
  pub password_hash : Text

-- The last id that SQLite has given out in each table: `autoincrement` never gives one twice.
pub record Sequences : Type 0 where
  pub upstream_keys : ℕ
  pub key_models : ℕ
  pub downstream_keys : ℕ
  pub request_logs : ℕ
  pub admin_users : ℕ

pub record Tables : Type 0 where
  pub upstream_keys : List UpstreamKey
  pub key_models : List KeyModel
  pub key_state : List KeyState
  pub downstream_keys : List DownstreamKey
  pub request_logs : List RequestLog
  pub admin_users : List AdminUser
  pub sequences : Sequences

pub record Server : Type 0 where
  pub schema : Schema
  pub tables : Tables
  pub inflight : List (ℕ × ℕ)
  pub keys_by_model : List (Text × List ℕ)
  pub faults : List Bool
  pub clock : ℕ
  pub readings : List ℕ
  pub random : List Text

-- A call that may fail and may change the state before it does.
abbrev pub M : Type 0 → Type 0
M A = Server → Result A × Server

abbrev pub continue : {A B : Type 0} → (A → M B) → Result A × Server → Result B × Server
continue f (ok a, s) = f a s
continue f (err e, s) = (err e, s)

infixl 5 ◌>>=◌ ◌>>◌
abbrev pub ◌>>=◌ : {A B : Type 0} → M A → (A → M B) → M B
◌>>=◌ m f s = continue f (m s)

abbrev pub ◌>>◌ : {B : Type 0} → M (Unit {0}) → M B → M B
m >> k = m >>= λ _. k

abbrev pub pure : {A : Type 0} → A → M A
pure a s = (ok a, s)

abbrev pub fail : {A : Type 0} → Error → M A
fail e s = (err e, s)

-- the result of a Go expression that returns an error beside a value
unfoldable pub lift : {A : Type 0} → Result A → M A
lift r s = (r, s)

-- `_ = f(…)`: the error is dropped, the effects stay
abbrev pub ignore : {A : Type 0} → M A → M (Unit {0})
ignore m s = (ok tt, (m s).1)

-- The next entry of `faults`; with none left no call fails.
next_fault : List Bool → Bool × List Bool
next_fault [] = (false, [])
next_fault (b ∷ bs) = (b, bs)

-- A call of the driver that reads or writes nothing: RowsAffected, LastInsertId, BeginTx, Commit.
unfoldable pub driver_call : M (Unit {0})
unfolding next_fault
driver_call s = elim (next_fault s.faults).0 [
  | true ↦ (err database, record s { faults = (next_fault s.faults).1 })
  | false ↦ (ok tt, record s { faults = (next_fault s.faults).1 })
]

-- A query; its rows are read to the end.
unfoldable pub query : {A : Type 0} → (Tables → A) → M A
query f = do driver_call; λ s. (ok (f s.tables), s)

run_statement : {A : Type 0} → Option (A × Tables) → M A
run_statement none s = (err constraint, s)
run_statement (some (a, t)) s = (ok a, record s { tables = t })

-- A statement that changes the tables; `none` is a constraint that does not hold.
unfoldable pub exec : {A : Type 0} → (Tables → Option (A × Tables)) → M A
unfolding run_statement
exec f = do driver_call; λ s. run_statement (f s.tables) s

-- `Rollback` gives back the tables of the beginning.
roll_back : {A : Type 0} → Tables → Result A × Server → Result A × Server
roll_back t (ok a, s) = (ok a, s)
roll_back t (err e, s) = (err e, record s { tables = t })

-- BeginTx, the body, Commit, with the deferred Rollback.
unfoldable pub transaction : {A : Type 0} → M A → M A
unfolding roll_back
transaction body = do driver_call; λ s. roll_back s.tables ((do a ← body; driver_call; pure a) s)

-- time.Now()
unfoldable pub now : M ℕ
now s = elim s.readings [
  | [] ↦ (ok s.clock, s)
  | t ∷ ts ↦ (ok t, record s { clock = t; readings = ts })
]

abbrev pub no_sequences : Sequences
no_sequences = record {
  upstream_keys = 0;
  key_models = 0;
  downstream_keys = 0;
  request_logs = 0;
  admin_users = 0;
}

abbrev pub no_tables : Tables
no_tables = record {
  upstream_keys = [];
  key_models = [];
  key_state = [];
  downstream_keys = [];
  request_logs = [];
  admin_users = [];
  sequences = no_sequences;
}

-- A server on an empty database.
abbrev pub empty_server : Server
empty_server = record {
  schema = [];
  tables = no_tables;
  inflight = [];
  keys_by_model = [];
  faults = [];
  clock = 0;
  readings = [];
  random = [];
}

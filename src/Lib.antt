-- ===== src/Lib.antt =====
-- AtomHub, a gateway for chat models: its backend in Go, internal/.
--
-- A request to the chat API carries a bearer token (`Gateway/Access`), is sent to one of the upstream
-- keys that support its model (`Catalog`, `Store/State`, `Selector`, `Gateway/Chat`), is translated for
-- the key's provider (`Gateway/Proxy`, `Gateway/Stream`), and is settled: the request log, the client's
-- totals and the health of the key (`Store/Logs`, `Store/State`, `Usage`). Probes ask each provider for
-- the models of a key and rebuild the catalog (`Probe`, `Store/Models`, `Catalog`).
--
-- The files, with what they model:
--   Types               internal/types/types.go, and the errors of all packages as one type
--   Usage               internal/usage/usage.go
--   Selector            internal/selector/selector.go
--   Server              the state that App of internal/app/app.go reaches: the tables of
--                       internal/store/migrate.go, the counters of calls in flight, the catalog's map;
--                       and the effects on it: database calls, transactions, the clock
--   Store/State         internal/store/state.go
--   Store/Keys          internal/store/keys.go; Store/Keys/Registry is the map that it refines
--   Store/Models        internal/store/models.go
--   Store/Logs          internal/store/logs.go
--   Store/DownstreamKeys  internal/store/downstream_keys.go
--   Auth                internal/auth/downstream.go
--   Auth/Session        internal/auth/session.go
--   Store/Admin         internal/store/admin.go
--   Store/Stats         internal/store/stats.go
--   Schema, Store/Migrate  internal/store/migrate.go, on the schema of the database file
--   Store/Sound         what the schema of internal/store/migrate.go demands of the tables
--   Catalog             internal/catalog/catalog.go
--   Probe               internal/probe/service.go
--   Gateway/Api         internal/app/api_types.go, and what the handlers take from outside
--   Gateway/Messages    the helpers at the end of internal/app/handlers_gateway.go
--   Gateway/Access      requireGatewayAccess of the same file
--   Gateway/Proxy       proxyOpenAI, proxyAnthropic and proxyGemini of the same file
--   Gateway/Stream      internal/app/streaming.go
--   Gateway/Chat        handleChatCompletions and handleGatewayModels
--   Admin/Payloads      the payloads of internal/app/handlers_admin.go
--   Admin/Keys          the handlers for upstream keys of the same file
--   Admin/Login         handleAdminLogin of the same file, internal/auth/middleware.go
--   Admin/Clients       the handlers for the gateway's clients of the same file
--   Admin/Reports       the dashboard, the listings and the reports of the same file
--   App                 New and the start of Run of internal/app/app.go
--   App/Static          internal/app/spa.go
--   App/Routes          internal/app/routes.go, with the guards and the dispatch to the handlers
--   Providers           internal/providers
--   Config              internal/config/config.go
--   Prelude, Text       shared helpers: tests, lists, 64-bit integers, sorting, Go's strings
--   Samples             a small server on which the theorems are tried, in the Examples modules
--
-- How code becomes definitions. A method is a function of its arguments and the state to a result and
-- the state after it; an error is a value, `err`, and a failing step ends the method as `return err`
-- does. Every call of the database driver may fail: `faults` says which do, and a theorem that says
-- nothing of it holds for every choice. A transaction that fails has the tables of its beginning. The
-- clock and the random source yield what is listed in the state. Each operation is one step, which is
-- what the mutexes and SQLite's single connection give; a request is the sequence of its steps,
-- and `App/Reach` lets starts, probes and requests follow one another in any order.
--
-- Bounds. Token counts are int64: their sums in internal/usage wrap around, and the sums of a query
-- that are beyond int64 fail it. A client's totals are modelled as long as they are int64s, beyond
-- which SQLite keeps a floating-point number that no store can read. Ids, counters and times are
-- natural numbers, which in the program stay far below 2^63. A decimal is printed on fuel above the
-- number. No loop needs more.
--
-- Not from this repository, and parameters of the definitions: the network and JSON (`External`),
-- the cryptography (`Crypto`, `Signing`, bcrypt's `verify`), the providers' lists of models
-- (`ListModels`, `Client`), the environment.
--
-- Not modelled: listening and shutdown of the HTTP server, main, the serving of a file and the web
-- frontend, which are input and output; the opening of the database file in internal/store/db.go.
pub mod Prelude
pub mod Usage
pub mod Samples
pub mod Text
pub mod Types
pub mod Selector
pub mod Schema
pub mod Server
pub mod Auth
pub mod Store
pub mod Catalog
pub mod Providers
pub mod Config
pub mod Probe
pub mod Gateway
pub mod Admin
pub mod App

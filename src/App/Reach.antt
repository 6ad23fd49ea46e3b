-- ===== src/App/Reach.antt =====
-- The states that the program can come to: a start, the probes that a start begins with, and requests,
-- one after another in any order. Between them the environment decides anew which calls of the
-- database fail, what the clock shows and what the random source yields. A process may stop at any
-- time between two steps, and the next start finds the tables that it left.
use atomhub.Prelude.{ℕ, Bool, List, arith}
use atomhub.Text.{Text}
use atomhub.Server.{Server, empty_server}
use atomhub.Config.{Config}
use atomhub.Store.Sound.{IsSound}
use atomhub.Probe.Sound.{probe_all-IsSound}
use atomhub.App.{Startup, new, initial_probe}
use atomhub.App.Bootstrap.{new-Maintains}
use atomhub.App.Routes.{Program, Request, serve}
use atomhub.App.Routes.Sound.{serve-Kept}

pub data Step (program : Program) : Server → Server → Type 0 where
  start : (env : Startup) (cfg : Config) (s : Server) → Step program s (new env cfg s).1
  probe : (s : Server) → Step program s (initial_probe program.providers s)
  handle : (request : Request) (s : Server) → Step program s (serve program request s).1
  surround :
      (faults : List Bool) (clock : ℕ) (readings : List ℕ) (random : List Text) (s : Server)
      → Step program s
          (record s { faults = faults; clock = clock; readings = readings; random = random })

pub data Reach (program : Program) (s : Server) : Server → Type 0 where
  here : Reach program s s
  next : {t u : Server} → Reach program s t → Step program t u → Reach program s u

module _ {program : Program} where
  Step-IsSound : {s t : Server} → Step program s t → IsSound s.tables → IsSound t.tables
  unfolding initial_probe
  Step-IsSound (start env cfg s) h = (new-Maintains env cfg).at s h
  Step-IsSound (probe s) h = probe_all-IsSound program.providers s h
  Step-IsSound (handle request s) h = serve-Kept program request s h
  Step-IsSound (surround faults clock readings random s) h = h

  -- Reachable tables are sound where those of the beginning are.
  pub Reach-Sound : {s t : Server} → IsSound s.tables → Reach program s t → IsSound t.tables
  Reach-Sound h here = h
  Reach-Sound h (next r step) = Step-IsSound step (Reach-Sound h r)

empty-IsSound : IsSound empty_server.tables
empty-IsSound = record {
  keys = omega arith;
  models = tt;
  states = tt;
  clients = omega arith;
  hashes = tt;
  logs = omega arith;
  admins = tt;
}

-- Whatever starts, probes and requests follow one another from an empty database, with any answers of
-- the upstreams and any failing calls of the database: the ids of the keys, the clients and the log
-- ascend strictly up to the last one given out, no key has two rows of state, no key has a model
-- twice, no two clients have a token's hash and no two admins a name.
pub Reach-IsSound :
    (program : Program) (t : Server) → Reach program empty_server t → IsSound t.tables
Reach-IsSound program t r = Reach-Sound empty-IsSound r

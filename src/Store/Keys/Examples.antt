-- ===== src/Store/Keys/Examples.antt =====
-- The store of upstream keys on a database with two keys, of which one was deleted.
use atomhub.Prelude.{false, [], ◌∷◌, arith}
use atomhub.Text.{codes}
use atomhub.Server.{Server, empty_server, no_tables, no_sequences}
use atomhub.Server.Outcome.{Outcome}
use atomhub.Samples.{key_one}
use atomhub.Store.Sound.{IsSound}
use atomhub.Store.Keys.Registry.{Operation, change, perform}
use atomhub.Store.Keys.Registers.{Registers, Fails}
use atomhub.Store.Keys.Refinement.{perform-Registers}

abbrev one_key : Server
one_key = record empty_server {
  tables = record no_tables {
    upstream_keys = key_one ∷ [];
    sequences = record no_sequences { upstream_keys = 2 };
  };
  clock = 7;
}

one_key-IsSound : IsSound one_key.tables
one_key-IsSound = record {
  keys = (omega arith, omega arith);
  models = tt;
  states = tt;
  clients = omega arith;
  hashes = tt;
  logs = omega arith;
  admins = tt;
}

abbrev renaming : Operation
renaming = change (record key_one { name = codes " main "; enabled = false })

perform-Registers_example :
    Outcome (Fails renaming one_key) (Registers renaming one_key) (perform renaming) one_key
perform-Registers_example = perform-Registers renaming one_key one_key-IsSound

-- ===== src/System.antt =====
-- The state of the server process: its server object and the database behind it. A handler gives
-- the new state and the answer to the client; `none` is an exception or an undefined access.
use nat_data_collector.Prelude.{Option}
use nat_data_collector.Server.{Server}
use nat_data_collector.Protocol.{DataPackage}

pub record System (J D : Type 0) : Type 0 where
  pub server : Server J
  pub database : D

abbrev pub Outcome : Type 0 → Type 0 → Type 0
Outcome J D = Option (System J D × DataPackage J)

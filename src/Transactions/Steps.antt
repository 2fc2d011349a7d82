-- ===== src/Transactions/Steps.antt =====
-- The server process as a step relation: connections, requests and posted tasks in any order.
use nat_data_collector.Prelude.{ℕ, ◌≡◌, some, []}
use nat_data_collector.Protocol.{DataPackage}
use nat_data_collector.Database.{Mongo}
use nat_data_collector.Server.{
  Server, Libs, accept, drop_session, run_post, remove_expired_sessions,
}
use nat_data_collector.System.{System}
use nat_data_collector.Transactions.{handle}

abbrev pub new_server : {J : Type 0} → Server J
new_server = record { sessions = []; lobbies = []; posts = []; written = [] }

abbrev pub new_system : {J D : Type 0} → D → System J D
new_system d = record { server = new_server; database = d }

-- The database may change on its own, by other programs.
pub data Step {J D : Type 0} (lib : Libs J) (mongo : Mongo D)
    : System J D → System J D → Type 0 where
  accepted :
      (t : System J D) (hash : ℕ) → Step lib mongo t (record t { server = accept t.server hash })
  dropped :
      (t : System J D) (hash : ℕ)
      → Step lib mongo t (record t { server = drop_session t.server hash })
  expired :
      (t : System J D)
      → Step lib mongo t (record t { server = remove_expired_sessions lib t.server })
  requested :
      (t u : System J D) (pkg : DataPackage J) (hash : ℕ)
      → handle lib mongo t pkg hash ≡ some u
      → Step lib mongo t u
  posted : (t : System J D) → Step lib mongo t (record t { server = run_post t.server })
  changed : (t : System J D) (d : D) → Step lib mongo t (record t { database = d })

pub data Reach {J D : Type 0} (lib : Libs J) (mongo : Mongo D)
    : System J D → System J D → Type 0 where
  stay : (t : System J D) → Reach lib mongo t t
  go : (t u v : System J D) → Reach lib mongo t u → Step lib mongo u v → Reach lib mongo t v

-- ===== src/Transactions/Rejected.antt =====
-- The requests that are turned away before their handler runs.
use nat_data_collector.Prelude.{ℕ, ◌≡◌, refl, true, ◌||◌, some, ◌++◌, inl, inr, Bool-cases, arith}
use nat_data_collector.Errors.{failed}
use nat_data_collector.Protocol.{DataPackage, create_error}
use nat_data_collector.Database.{Mongo}
use nat_data_collector.Server.{Libs}
use nat_data_collector.Server.Lobbies.{send_session-lobbies, send_session-sessions}
use nat_data_collector.System.{System}
use nat_data_collector.Transactions.{handle, answer_to, is_outdated, reply_to, version_mismatch}
use nat_data_collector.Server.Tasks.{reply_tasks, send_session-posts}

module _ {J D : Type 0} (lib : Libs J) where
  -- Only a failure is posted as the reply.
  pub record IsRefused (t u : System J D) (hash : ℕ) : Type 0 where
    pub lobbies : u.server.lobbies ≡ t.server.lobbies
    pub sessions : u.server.sessions ≡ t.server.sessions
    pub database : u.database ≡ t.database
    pub reply : DataPackage J
    pub posts : u.server.posts ≡ t.server.posts ++ reply_tasks lib reply hash
    pub failure : failed reply.error ≡ true

  refusal :
      (t : System J D) (pkg : DataPackage J) (hash : ℕ)
      → failed pkg.error ≡ true
      → IsRefused t (reply_to lib hash (t, pkg)) hash
  refusal t pkg hash f = record {
    lobbies = send_session-lobbies lib t.server pkg hash;
    sessions = send_session-sessions lib t.server pkg hash;
    database = refl;
    reply = pkg;
    posts = send_session-posts lib t.server pkg hash;
    failure = f;
  }

module _ {J D : Type 0} (lib : Libs J) (mongo : Mongo D) where
  -- A request of a client of another version, other than the one for the version, and a package
  -- that came with a failure are answered by a failure, and leave lobbies, sessions and the database
  -- as they are.
  pub rejected_lem :
      (t : System J D) (pkg : DataPackage J) (hash : ℕ)
      → (is_outdated pkg || failed pkg.error) ≡ true
      → (u : System J D) × (handle lib mongo t pkg hash ≡ some u) × IsRefused lib t u hash
  unfolding handle answer_to create_error
  rejected_lem t pkg hash h = elim (Bool-cases (is_outdated pkg)) [
    | inl e ↦ (
      reply_to lib hash (t, version_mismatch lib),
      rw e,
      refusal lib t (version_mismatch lib) hash refl,
    )
    | inr e ↦
        let reply = create_error lib.json pkg.error in
        let f : failed pkg.error ≡ true = ground arith in
        (reply_to lib hash (t, reply), rw (e, f), refusal lib t reply hash f)
  ]

-- ===== src/Server.antt =====
-- The transaction server: ServerSource/src/Server/Server.cpp. The handlers and the tasks posted to
-- the acceptor's executor run one at a time, so each is a step on one state; the lobby mutex makes
-- the accesses to the lobbies atomic. A session is known by the hash of its peer's address.
pub mod Sessions
pub mod Lobbies
pub mod Members
pub mod Tasks
use nat_data_collector.Prelude.{
  ℕ, zero, suc, ◌+◌, Bool, true, false, not, ◌&&◌, ◌||◌, Option, none, some, List, [], ◌∷◌, ◌++◌,
  ◌==◌, String, if◌then◌else◌, is_empty, length, ltb,
}
use nat_data_collector.Prelude.OrderedMap.{Map, find, contains, insert, erase, erase_if}
use nat_data_collector.Types.{Transaction}
use nat_data_collector.Json.{Codec, Conversion}
use nat_data_collector.Protocol.{DataPackage, create_data}
use nat_data_collector.Framing.Package.{Wire, compress}
use nat_data_collector.Data.{
  User, Lobby, AllLobbies, TraversalClient, TraversalResult, VersionUpdate, InformationUpdate,
  ClientId, lobby,
}

-- A task that was posted to the executor.
pub data Post (J : Type 0) : Type 0 where
  to_lobbies : List ℕ → AllLobbies J → Post J
  to_session : List ℕ → ℕ → Post J
  to_all : List ℕ → Post J

-- `sessions` holds the weak pointers: true while the session object lives. `posts` are the tasks
-- that still have to run, `written` is what was handed to sessions, both oldest first.
pub record Server (J : Type 0) : Type 0 where
  pub sessions : Map Bool
  pub lobbies : Map (Lobby J)
  pub posts : List (Post J)
  pub written : List (ℕ × List ℕ)

-- The libraries that the server stands on.
pub record Libs (J : Type 0) : Type 0 where
  pub wire : Wire J
  pub open wire use *
  pub all_lobbies : Codec J (AllLobbies J)
  pub lobby_codec : Codec J (Lobby J)
  pub traversal_client : Codec J TraversalClient
  pub traversal_result : Codec J TraversalResult
  pub version_update : Codec J VersionUpdate
  pub information_update : Codec J InformationUpdate
  pub client_id : Codec J ClientId
  pub scores : Codec J (List ClientId)
  pub text : Conversion J String
  pub number : Conversion J ℕ
  pub flag : Conversion J Bool

-- The tasks: a session is written to if it is known and still lives.
abbrev pub is_live : Option Bool → Bool
is_live none = false
is_live (some alive) = alive

unfoldable pub write_to : Map Bool → List ℕ → ℕ → List (ℕ × List ℕ)
write_to sessions bytes session =
    if is_live (find session sessions) then (session, bytes) ∷ [] else []

unfoldable pub write_to_sessions : List ℕ → Map Bool → List (ℕ × List ℕ)
write_to_sessions bytes [] = []
write_to_sessions bytes ((hash, alive) ∷ rest) =
    let writes = write_to_sessions bytes rest in if alive then (hash, bytes) ∷ writes else writes

-- The end of a session object leaves its weak pointer behind, expired.
abbrev pub expired_now : Map Bool → ℕ → Option Bool → Map Bool
expired_now sessions hash none = sessions
expired_now sessions hash (some alive) = insert hash false sessions

abbrev pub is_expired : ℕ × Bool → Bool
is_expired (key, alive) = not alive

module _ {J : Type 0} where
  -- `Server::add_lobby(Lobby)` and `Server::add_lobby(User, std::vector<User>)`.
  unfoldable pub add_lobby : Server J → Lobby J → Server J
  add_lobby s l = record s { lobbies = insert l.owner.session l s.lobbies }

  unfoldable pub add_users : Server J → User J → List (User J) → Server J
  unfolding add_lobby
  add_users s owner joined = add_lobby s (lobby owner joined)

  -- `Server::remove_lobby`.
  unfoldable pub remove_lobby : Server J → User J → Server J
  remove_lobby s owner =
      if contains owner.session s.lobbies
      then record s { lobbies = erase owner.session s.lobbies }
      else s

  -- `Server::GetEmptyLobbies`.
  abbrev pub is_joined : ℕ × Lobby J → Bool
  is_joined (key, l) = not (is_empty l.joined)

  unfoldable pub get_empty_lobbies : Server J → AllLobbies J
  get_empty_lobbies s = erase_if is_joined s.lobbies

  -- `Server::send_session` and `Server::send_all_lobbies`: a package that cannot be compressed is
  -- dropped with a line on the console.
  abbrev pub post : Server J → Option (List ℕ) → (List ℕ → Post J) → Server J
  post s none task = s
  post s (some bytes) task = record s { posts = s.posts ++ task bytes ∷ [] }

  -- `Server::send_all`.
  unfoldable pub send_all : Server J → List ℕ → Server J
  send_all s bytes = record s { posts = s.posts ++ to_all bytes ∷ [] }

  unfoldable pub send_session : Libs J → Server J → DataPackage J → ℕ → Server J
  send_session lib s pkg session =
      post s (compress lib.wire true pkg) (λ bytes. to_session bytes session)

  unfoldable pub send_all_lobbies : Libs J → Server J → DataPackage J → Server J
  send_all_lobbies lib s pkg =
      post s (compress lib.wire true pkg) (λ bytes. to_lobbies bytes s.lobbies)

  unfoldable pub write_to_all : Map Bool → List ℕ → AllLobbies J → List (ℕ × List ℕ)
  unfolding write_to
  write_to_all sessions bytes [] = []
  write_to_all sessions bytes ((hash, l) ∷ rest) =
      write_to sessions bytes hash ++ write_to_all sessions bytes rest

  abbrev pub task_writes : Map Bool → Post J → List (ℕ × List ℕ)
  task_writes sessions (to_lobbies bytes lobbies) = write_to_all sessions bytes lobbies
  task_writes sessions (to_session bytes session) = write_to sessions bytes session
  task_writes sessions (to_all bytes) = write_to_sessions bytes sessions

  abbrev pub next_task : List (Post J) → Server J → Server J
  next_task [] s = s
  next_task (p ∷ rest) s = record s {
    posts = rest;
    written = s.written ++ task_writes s.sessions p;
  }

  unfoldable pub run_post : Server J → Server J
  unfolding write_to_all write_to_sessions
  run_post s = next_task s.posts s

  -- The success branch of the accept handler, and the end of a session object.
  unfoldable pub accept : Server J → ℕ → Server J
  accept s hash = record s { sessions = insert hash true s.sessions }

  unfoldable pub drop_session : Server J → ℕ → Server J
  drop_session s hash = record s { sessions = expired_now s.sessions hash (find hash s.sessions) }

  -- `Server::remove_expired_sessions`.
  unfoldable pub lacks_session : Map Bool → List (User J) → Bool
  lacks_session sessions [] = false
  lacks_session sessions (u ∷ us) = not (contains u.session sessions) || lacks_session sessions us

  unfoldable pub is_orphan : Map Bool → ℕ × Lobby J → Bool
  unfolding lacks_session
  is_orphan sessions (key, l) = not (contains key sessions) || lacks_session sessions l.joined

  -- Some lobby that could be joined lost its owner.
  unfoldable pub needs_update : Map Bool → Map (Lobby J) → Bool
  needs_update sessions [] = false
  needs_update sessions ((key, l) ∷ m) =
      (not (contains key sessions) && is_empty l.joined) || needs_update sessions m

  unfoldable pub remove_expired_sessions : Libs J → Server J → Server J
  remove_expired_sessions lib s =
      let sessions = erase_if is_expired s.sessions in
      if length sessions == length s.sessions
      then s
      else let t = record s {
        sessions = sessions;
        lobbies = erase_if (is_orphan sessions) s.lobbies;
      } in
        if needs_update sessions s.lobbies
        then send_all_lobbies lib t (
            create_data lib.json lib.all_lobbies (get_empty_lobbies t)
              Transaction.client_receive_lobbies)
        else t

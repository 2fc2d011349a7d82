-- ===== src/Server/Lobbies.antt =====
-- Well-formed lobbies, and what the operations of ServerSource/src/Server/Server.cpp make of them.
use nat_data_collector.Prelude.{
  ℕ, ◌≡◌, ◌≢◌, refl, none, List, [], ◌∷◌, ◌==◌, if◌then◌else◌, arith, All, Bool-cases, inl, inr,
}
use nat_data_collector.Prelude.OrderedMap.{
  Map, find, contains, insert, erase, IsSorted, insert-Above, erase-Above, insert-All, erase-All,
  find-erase, find-erase_if, keep_unless,
}
use nat_data_collector.Protocol.{DataPackage}
use nat_data_collector.Data.{User, Lobby}
use nat_data_collector.Server.{
  Server, Libs, remove_lobby, get_empty_lobbies, is_joined, send_session, send_all_lobbies,
}

module _ {J : Type 0} where
  -- One joined user at most, who is not the owner.
  abbrev pub JoinedIsValid : ℕ → List (User J) → Type 0
  JoinedIsValid owner [] = Unit {0}
  JoinedIsValid owner (u ∷ []) = u.session ≢ owner
  JoinedIsValid owner (u ∷ v ∷ us) = ⊥

  -- A lobby stands under the session of its owner.
  abbrev pub EntryIsValid : ℕ × Lobby J → Type 0
  EntryIsValid (key, l) = (l.owner.session ≡ key) × JoinedIsValid l.owner.session l.joined

  pub record LobbiesIsValid (m : Map (Lobby J)) : Type 0 where
    pub sorted : IsSorted m
    pub entries : All EntryIsValid m

  pub insert-LobbiesIsValid :
      (l : Lobby J) (m : Map (Lobby J))
      → JoinedIsValid l.owner.session l.joined
      → LobbiesIsValid m
      → LobbiesIsValid (insert l.owner.session l m)
  insert-LobbiesIsValid l m j v = record {
    sorted = insert-Above 0 l.owner.session l m (omega arith) v.sorted;
    entries = insert-All EntryIsValid l.owner.session l m (refl, j) v.entries;
  }

  pub remove_lobby-LobbiesIsValid :
      (s : Server J) (u : User J)
      → LobbiesIsValid s.lobbies
      → LobbiesIsValid (remove_lobby s u).lobbies
  unfolding remove_lobby
  remove_lobby-LobbiesIsValid s u v =
      let erased : LobbiesIsValid (erase u.session s.lobbies) = record {
        sorted = erase-Above 0 u.session s.lobbies v.sorted;
        entries = erase-All EntryIsValid u.session s.lobbies v.entries;
      } in
      elim (Bool-cases (contains u.session s.lobbies)) [ inl e ↦ rw e erased | inr e ↦ rw e v ]

  -- The lobby under the owner's session is gone, and every other one is as it was.
  pub find-remove_lobby :
      (s : Server J) (u : User J) (key : ℕ)
      → find key (remove_lobby s u).lobbies
        ≡ (if u.session == key then none else find key s.lobbies)
  unfolding remove_lobby contains
  find-remove_lobby s u key = ground (arith, find-erase key u.session s.lobbies)

  -- Of valid lobbies, `GetEmptyLobbies` gives those that nobody has joined.
  pub find-get_empty_lobbies :
      (s : Server J) (key : ℕ)
      → LobbiesIsValid s.lobbies
      → find key (get_empty_lobbies s) ≡ keep_unless is_joined key (find key s.lobbies)
  unfolding get_empty_lobbies
  find-get_empty_lobbies s key v = find-erase_if 0 key is_joined s.lobbies v.sorted

module _ {J : Type 0} (lib : Libs J) where
  -- Sending changes neither lobbies nor sessions.
  pub send_session-lobbies :
      (s : Server J) (pkg : DataPackage J) (session : ℕ)
      → (send_session lib s pkg session).lobbies ≡ s.lobbies
  unfolding send_session
  send_session-lobbies s pkg session = ground arith

  pub send_all_lobbies-lobbies :
      (s : Server J) (pkg : DataPackage J) → (send_all_lobbies lib s pkg).lobbies ≡ s.lobbies
  unfolding send_all_lobbies
  send_all_lobbies-lobbies s pkg = ground arith

  pub send_session-sessions :
      (s : Server J) (pkg : DataPackage J) (session : ℕ)
      → (send_session lib s pkg session).sessions ≡ s.sessions
  unfolding send_session
  send_session-sessions s pkg session = ground arith

  pub send_all_lobbies-sessions :
      (s : Server J) (pkg : DataPackage J) → (send_all_lobbies lib s pkg).sessions ≡ s.sessions
  unfolding send_all_lobbies
  send_all_lobbies-sessions s pkg = ground arith

pub ruleset sends = (
  send_session-lobbies, send_all_lobbies-lobbies, send_session-sessions, send_all_lobbies-sessions,
)

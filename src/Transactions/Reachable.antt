-- ===== src/Transactions/Reachable.antt =====
-- What holds in every state of the server process.
use nat_data_collector.Prelude.{
  ℕ, ◌≡◌, refl, Bool, none, some, List, [], ◌∷◌, Option, inl, inr, arith,
}
use nat_data_collector.Prelude.OrderedMap.{
  Map, find, IsSorted, insert-Above, erase_if-Above, erase_if-All,
}
use nat_data_collector.Data.{User}
use nat_data_collector.Database.{Mongo}
use nat_data_collector.Server.{
  Server, Libs, Post, add_lobby, remove_lobby, send_session, send_all_lobbies, accept, drop_session,
  expired_now, run_post, next_task, remove_expired_sessions, is_expired, is_orphan,
}
use nat_data_collector.Server.Lobbies.{
  LobbiesIsValid, EntryIsValid, insert-LobbiesIsValid, remove_lobby-LobbiesIsValid,
  send_session-lobbies, send_all_lobbies-lobbies, send_session-sessions, send_all_lobbies-sessions,
}
use nat_data_collector.Server.Sessions.{alive, remove_expired_cases}
use nat_data_collector.System.{System}
use nat_data_collector.LobbyRequests.Kept.{IsKept}
use nat_data_collector.Transactions.Kept.{handle-Holds}
use nat_data_collector.Transactions.Steps.{Step, Reach, new_system}

-- Sessions and lobbies are maps, and the lobbies are well-formed.
pub record IsSound {J : Type 0} (s : Server J) : Type 0 where
  pub sessions : IsSorted s.sessions
  pub lobbies : LobbiesIsValid s.lobbies

module _ {J : Type 0} (lib : Libs J) where
  sound :
      (s t : Server J) → t.sessions ≡ s.sessions → LobbiesIsValid t.lobbies → IsSound s → IsSound t
  sound s t e v p = record { sessions = rw e p.sessions; lobbies = v }

  remove_lobby-sessions : (s : Server J) (u : User J) → (remove_lobby s u).sessions ≡ s.sessions
  unfolding remove_lobby
  remove_lobby-sessions s u = ground arith

  pub IsSound-IsKept : IsKept lib IsSound
  unfolding add_lobby
  IsSound-IsKept = record {
    entries = λ s p. p.lobbies.entries;
    sent = λ s pkg n p.
        sound s (send_session lib s pkg n) (send_session-sessions lib s pkg n)
          (rw (send_session-lobbies lib s pkg n) p.lobbies) p;
    sent_all = λ s pkg p.
        sound s (send_all_lobbies lib s pkg) (send_all_lobbies-sessions lib s pkg)
          (rw (send_all_lobbies-lobbies lib s pkg) p.lobbies) p;
    added =
        λ s l j p. sound s (add_lobby s l) refl (insert-LobbiesIsValid l s.lobbies j p.lobbies) p;
    removed = λ s u p.
        sound s (remove_lobby s u) (remove_lobby-sessions s u)
          (remove_lobby-LobbiesIsValid s u p.lobbies) p;
  }

  expired_now-IsSorted :
      (m : Map Bool) (hash : ℕ) (o : Option Bool) → IsSorted m → IsSorted (expired_now m hash o)
  expired_now-IsSorted m hash none v = v
  expired_now-IsSorted m hash (some a) v = insert-Above 0 hash Bool.false m (omega arith) v

  drop_session-IsSound : (s : Server J) (hash : ℕ) → IsSound s → IsSound (drop_session s hash)
  unfolding drop_session
  drop_session-IsSound s hash p = record {
    sessions = expired_now-IsSorted s.sessions hash (find hash s.sessions) p.sessions;
    lobbies = p.lobbies;
  }

  next_task-IsSound : (ps : List (Post J)) (s : Server J) → IsSound s → IsSound (next_task ps s)
  next_task-IsSound [] s p = p
  next_task-IsSound (q ∷ ps) s p = record { sessions = p.sessions; lobbies = p.lobbies }

  remove_expired_sessions-IsSound :
      (s : Server J) → IsSound s → IsSound (remove_expired_sessions lib s)
  remove_expired_sessions-IsSound s p = elim (remove_expired_cases lib s) [
    | inl (len, same) ↦ rw same p
    | inr (fewer, sessions, lobbies) ↦ record {
      sessions = rw sessions (erase_if-Above 0 is_expired s.sessions p.sessions);
      lobbies = rw lobbies (record {
        sorted = erase_if-Above 0 (is_orphan (alive lib s)) s.lobbies p.lobbies.sorted;
        entries = erase_if-All EntryIsValid (is_orphan (alive lib s)) s.lobbies p.lobbies.entries;
      });
    }
  ]

module _ {J D : Type 0} (lib : Libs J) (mongo : Mongo D) where
  step-IsSound : (t u : System J D) → Step lib mongo t u → IsSound t.server → IsSound u.server
  unfolding accept run_post
  step-IsSound _ _ (Step.accepted t hash) p = record {
    sessions = insert-Above 0 hash Bool.true t.server.sessions (omega arith) p.sessions;
    lobbies = p.lobbies;
  }
  step-IsSound _ _ (Step.dropped t hash) p = drop_session-IsSound lib t.server hash p
  step-IsSound _ _ (Step.expired t) p = remove_expired_sessions-IsSound lib t.server p
  step-IsSound _ _ (Step.requested t u pkg hash e) p =
      rw e at (handle-Holds lib mongo IsSound (IsSound-IsKept lib) t pkg hash p)
  step-IsSound _ _ (Step.posted t) p = next_task-IsSound lib t.server.posts t.server p
  step-IsSound _ _ (Step.changed t d) p = p

  Reach-IsSound : (t u : System J D) → Reach lib mongo t u → IsSound t.server → IsSound u.server
  Reach-IsSound _ _ (Reach.stay t) p = p
  Reach-IsSound _ _ (Reach.go t u v r st) p = step-IsSound u v st (Reach-IsSound t u r p)

  -- In every state that the server process reaches from its start, whatever connections, requests,
  -- posted tasks and database changes lead there, the sessions and lobbies have one entry per key,
  -- every lobby stands under the session of its owner, and at most one user, who is not the owner,
  -- has joined it.
  pub reachable-IsSound :
      (d : D) (t : System J D) → Reach lib mongo (new_system d) t → IsSound t.server
  reachable-IsSound d t r =
      Reach-IsSound (new_system d) t r
        (record { sessions = tt; lobbies = record { sorted = tt; entries = tt } })

-- ===== src/Transactions/Posts.antt =====
-- The tasks that a request posts.
use nat_data_collector.Prelude.{
  ℕ, ◌≡◌, ◌∙◌, refl, sym, ap, true, Option, none, some, List, [], ◌∷◌, ◌++◌, inl, inr, Bool-cases,
  Option-cases, arith, After, ◌>>=◌,
}
use mathlib.Core.Path.{subst}
use mathlib.Core.List.{append_assoc, append-nil}
use nat_data_collector.Prelude.OrderedMap.{contains}
use nat_data_collector.Protocol.{DataPackage}
use nat_data_collector.Framing.Package.{compress}
use nat_data_collector.Data.{User}
use nat_data_collector.Database.{Mongo}
use nat_data_collector.Server.{
  Server, Libs, Post, add_lobby, remove_lobby, send_session, send_all_lobbies, to_session,
  to_lobbies,
}
use nat_data_collector.Server.Lobbies.{send_session-sessions, send_session-lobbies}
use nat_data_collector.Server.Tasks.{send_session-posts, reply_tasks}
use nat_data_collector.System.{System}
use nat_data_collector.LobbyRequests.Kept.{IsKept}
use nat_data_collector.Transactions.{handle, answer_to, reply_to}
use nat_data_collector.Transactions.Kept.{answer_to-After}
use nat_data_collector.Transactions.Reachable.{IsSound, IsSound-IsKept}

module _ {J : Type 0} (lib : Libs J) where
  -- The tasks of `t` are those of `s` and others behind them, and the rest is the same.
  pub record Continues (s t : Server J) : Type 0 where
    pub more : List (Post J)
    pub posts : t.posts ≡ s.posts ++ more
    pub sessions : t.sessions ≡ s.sessions
    pub written : t.written ≡ s.written

  continues :
      (s t u : Server J) (more : List (Post J))
      → u.posts ≡ t.posts ++ more
      → u.sessions ≡ t.sessions
      → u.written ≡ t.written
      → Continues s t
      → Continues s u
  continues s t u more e f g c = record {
    more = c.more ++ more;
    posts = e ∙ ap (λ ps. ps ++ more) c.posts ∙ append_assoc s.posts c.more more;
    sessions = f ∙ c.sessions;
    written = g ∙ c.written;
  }

  send_session-Continues :
      (s t : Server J) (pkg : DataPackage J) (n : ℕ)
      → Continues s t
      → Continues s (send_session lib t pkg n)
  unfolding send_session
  send_session-Continues s t pkg n c = elim (Option-cases (compress lib.wire true pkg)) [
    | inl e ↦ rw e c
    | inr (bytes, e) ↦ rw e (
        continues s t (record t { posts = t.posts ++ to_session bytes n ∷ [] })
          (to_session bytes n ∷ []) refl refl refl c)
  ]

  send_all_lobbies-Continues :
      (s t : Server J) (pkg : DataPackage J)
      → Continues s t
      → Continues s (send_all_lobbies lib t pkg)
  unfolding send_all_lobbies
  send_all_lobbies-Continues s t pkg c = elim (Option-cases (compress lib.wire true pkg)) [
    | inl e ↦ rw e c
    | inr (bytes, e) ↦ rw e (
        continues s t (record t { posts = t.posts ++ to_lobbies bytes t.lobbies ∷ [] })
          (to_lobbies bytes t.lobbies ∷ []) refl refl refl c)
  ]

  remove_lobby-Continues :
      (s t : Server J) (u : User J) → Continues s t → Continues s (remove_lobby t u)
  unfolding remove_lobby
  remove_lobby-Continues s t u c = elim (Bool-cases (contains u.session t.lobbies)) [
    | inl e ↦
        rw e (record { more = c.more; posts = c.posts; sessions = c.sessions; written = c.written })
    | inr e ↦ rw e c
  ]

  abbrev SoundAfter : Server J → Server J → Type 0
  SoundAfter s t = IsSound t × Continues s t

  Continues-IsKept : (s : Server J) → IsKept lib (SoundAfter s)
  unfolding add_lobby
  Continues-IsKept s =
      let sound = IsSound-IsKept lib in
      record {
        entries = λ t p. sound.entries t p.0;
        sent = λ t pkg n p. (sound.sent t pkg n p.0, send_session-Continues s t pkg n p.1);
        sent_all = λ t pkg p. (sound.sent_all t pkg p.0, send_all_lobbies-Continues s t pkg p.1);
        added = λ t l j p. (
          sound.added t l j p.0,
          record {
            more = p.1.more;
            posts = p.1.posts;
            sessions = p.1.sessions;
            written = p.1.written;
          },
        );
        removed = λ t u p. (sound.removed t u p.0, remove_lobby-Continues s t u p.1);
      }

  send_session-written :
      (s : Server J) (pkg : DataPackage J) (n : ℕ) → (send_session lib s pkg n).written ≡ s.written
  unfolding send_session
  send_session-written s pkg n = ground arith

-- A weaker property of what a call leaves.
After-map :
    {A B : Type 0} {P Q : A → Type 0}
    → ((a : A) → P a → Q a)
    → (o : Option (A × B)) → After P o
    → After Q o
After-map f none h = tt
After-map f (some r) h = f r.0 h

module _ {J D : Type 0} (lib : Libs J) (mongo : Mongo D) where
  -- What a request leaves, for what the dispatch comes to before the reply is sent: the tasks of
  -- before, those of the handler, and the one of the dispatch's answer as the last; lobbies and
  -- database are what the handler left.
  pub record IsAnswered (t u : System J D) (pkg : DataPackage J) (hash : ℕ) : Type 0 where
    pub handled : System J D
    pub reply : DataPackage J
    pub answered : answer_to lib mongo t pkg hash ≡ some (handled, reply)
    pub more : List (Post J)
    pub handled_posts : handled.server.posts ≡ t.server.posts ++ more
    pub posts : u.server.posts ≡ t.server.posts ++ (more ++ reply_tasks lib reply hash)
    pub sessions : u.server.sessions ≡ t.server.sessions
    pub written : u.server.written ≡ t.server.written
    pub lobbies : u.server.lobbies ≡ handled.server.lobbies
    pub database : u.database ≡ handled.database

  reply_to-IsAnswered :
      (t : System J D) (pkg : DataPackage J) (r : System J D × DataPackage J) (hash : ℕ)
      → answer_to lib mongo t pkg hash ≡ some r
      → Continues lib t.server r.0.server
      → IsAnswered t (reply_to lib hash r) pkg hash
  reply_to-IsAnswered t pkg r hash e c = record {
    handled = r.0;
    reply = r.1;
    answered = e;
    more = c.more;
    handled_posts = c.posts;
    posts =
        send_session-posts lib r.0.server r.1 hash
        ∙ ap (λ ps. ps ++ reply_tasks lib r.1 hash) c.posts
        ∙ append_assoc t.server.posts c.more (reply_tasks lib r.1 hash);
    sessions = send_session-sessions lib r.0.server r.1 hash ∙ c.sessions;
    written = send_session-written lib r.0.server r.1 hash ∙ c.written;
    lobbies = send_session-lobbies lib r.0.server r.1 hash;
    database = refl;
  }

  answer-IsAnswered :
      (t u : System J D) (pkg : DataPackage J) (hash : ℕ) (o : Option (System J D × DataPackage J))
      → answer_to lib mongo t pkg hash ≡ o
      → After (λ v. Continues lib t.server v.server) o
      → (o >>= λ r. some (reply_to lib hash r)) ≡ some u
      → IsAnswered t u pkg hash
  answer-IsAnswered t u pkg hash none h a e = cc
  answer-IsAnswered t u pkg hash (some r) h a e =
      subst (λ v. IsAnswered t v pkg hash) (cc e) (reply_to-IsAnswered t pkg r hash h a)

  -- A request that the dispatch completes, on a sound server, keeps the sessions, takes back no
  -- posted task and writes to no session at once: it posts tasks of its own behind those that wait,
  -- and the last of all is the one that sends the package with which the dispatch answers the request
  -- to the client that asked, or none if this package cannot be compressed. Lobbies and database are
  -- those that the dispatch left when it gave the answer.
  pub handle_lem :
      (t u : System J D) (pkg : DataPackage J) (hash : ℕ)
      → IsSound t.server
      → handle lib mongo t pkg hash ≡ some u
      → IsAnswered t u pkg hash
  unfolding handle
  handle_lem t u pkg hash p e =
      answer-IsAnswered t u pkg hash (answer_to lib mongo t pkg hash) refl
        (After-map (λ v h. h.1) (answer_to lib mongo t pkg hash)
          (answer_to-After lib mongo (SoundAfter lib t.server) (Continues-IsKept lib t.server) t pkg
            hash
            (
              p,
              record {
                more = [];
                posts = sym (append-nil t.server.posts);
                sessions = refl;
                written = refl;
              },
            )))
        e

-- ===== src/Server/Tasks.antt =====
-- The tasks that `Server::send_session` posts (ServerSource/src/Server/Server.cpp).
use mathlib.Core.List.{append-nil}
use nat_data_collector.Prelude.{
  ℕ, ◌≡◌, sym, true, Option, none, some, List, [], ◌∷◌, ◌++◌, inl, inr, Option-cases,
}
use nat_data_collector.Protocol.{DataPackage}
use nat_data_collector.Framing.Package.{compress}
use nat_data_collector.Server.{Server, Libs, Post, send_session, to_session}

module _ {J : Type 0} (lib : Libs J) where
  -- The task that sends a package to a session: none if the package cannot be compressed.
  abbrev pub session_tasks : Option (List ℕ) → ℕ → List (Post J)
  session_tasks none session = []
  session_tasks (some bytes) session = to_session bytes session ∷ []

  abbrev pub reply_tasks : DataPackage J → ℕ → List (Post J)
  reply_tasks reply session = session_tasks (compress lib.wire true reply) session

  pub send_session-posts :
      (s : Server J) (pkg : DataPackage J) (n : ℕ)
      → (send_session lib s pkg n).posts ≡ s.posts ++ reply_tasks pkg n
  unfolding send_session
  send_session-posts s pkg n = elim (Option-cases (compress lib.wire true pkg)) [
    | inl e ↦ rw e (sym (append-nil s.posts))
    | inr (bytes, e) ↦ rw e
  ]

-- ===== src/LobbyRequests/Confirm.antt =====
-- The confirmation of a lobby (ServerSource/src/RequestHandler/SessionRequestHandler.h).
use nat_data_collector.Prelude.{
  ℕ, ◌≡◌, ◌∙◌, refl, ap, Bool, false, not, ◌&&◌, Option, none, some, [], ◌∷◌, ◌==◌, if◌then◌else◌,
  arith, inl, inr, Bool-cases,
}
use nat_data_collector.Prelude.OrderedMap.{find, find-insert}
use nat_data_collector.Types.{meta_data_to_string}
use nat_data_collector.Errors.{Error, failed}
use nat_data_collector.Protocol.{DataPackage, add_meta, get_object, create_error}
use nat_data_collector.Data.{User, Lobby, lobby}
use nat_data_collector.Server.{Server, Libs, add_users, add_lobby, remove_lobby}
use nat_data_collector.Server.Lobbies.{
  find-remove_lobby, send_session-lobbies, send_all_lobbies-lobbies,
}
use nat_data_collector.LobbyRequests.{
  confirm_lobby, confirm_pair, confirmed, announce, refused, may_confirm, forget,
}

module _ {J : Type 0} (lib : Libs J) where
  -- The lobbies behind the confirmation: the two users share the owner's.
  abbrev pub lobby_after : Server J → User J → User J → ℕ → Option (Lobby J)
  lobby_after s owner joined key =
      if owner.session == key
      then some (lobby (forget lib owner) (forget lib joined ∷ []))
      else if joined.session == key
      then none
      else find key s.lobbies

  announce-lobbies :
      (s : Server J) (analyze : DataPackage J) (owner joined : ℕ)
      → (announce lib s analyze owner joined).lobbies ≡ s.lobbies
  announce-lobbies s analyze owner joined = simp (send_session-lobbies, send_all_lobbies-lobbies)

  confirmed-find :
      (s : Server J) (owner joined : User J)
      → (r : Server J × DataPackage J) × (confirmed lib s owner joined ≡ some r)
        × (failed r.1.error ≡ false)
        × ((key : ℕ) → find key r.0.lobbies ≡ lobby_after s owner joined key)
  unfolding confirmed add_meta meta_data_to_string add_users add_lobby create_error
  confirmed-find s owner joined =
      let t = remove_lobby s joined in
      let l = lobby (forget lib owner) (forget lib joined ∷ []) in
      (
        _,
        refl,
        refl,
        λ key.
            ap (find key) (announce-lobbies _ _ owner.session joined.session)
            ∙ find-insert key owner.session l (remove_lobby t owner).lobbies
            ∙ ground (arith, find-remove_lobby t owner key, find-remove_lobby s joined key),
      )

  -- The conditions under which two users may share a lobby.
  abbrev pub may_share : Server J → User J → User J → Bool
  may_share s owner joined =
      may_confirm s owner.session joined.session && not (owner.session == joined.session)

  -- What the confirmation makes of the server, with the answer that it gives.
  abbrev pub Confirms : Server J → User J → User J → Server J × DataPackage J → Type 0
  Confirms s owner joined r =
      (failed r.1.error ≡ not (may_share s owner joined))
      × ((key : ℕ)
          → find key r.0.lobbies ≡ (
              if may_share s owner joined
              then lobby_after s owner joined key
              else find key s.lobbies))

  confirm_pair-Confirms :
      (s : Server J) (owner joined : User J)
      → (r : Server J × DataPackage J) × (confirm_pair lib s owner joined ≡ some r)
        × Confirms s owner joined r
  unfolding create_error
  confirm_pair-Confirms s owner joined =
      elim (Bool-cases (may_confirm s owner.session joined.session)) [
        | inr e ↦ (
          (s, refused lib ("Other client disconnected ... Abort" ∷ [])),
          rw e refl,
          rw e (refl, λ key. refl),
        )
        | inl e ↦ elim (Bool-cases (owner.session == joined.session)) [
          | inl same ↦ (
            (s, refused lib ("You can not join your own session" ∷ [])),
            rw (e, same) refl,
            rw (e, same) (refl, λ key. refl),
          )
          | inr other ↦
              let (r, h, f, g) = confirmed-find s owner joined in
              (r, rw (e, other) h, rw (e, other) (f, g))
        ]
      ]

  -- A request to confirm a lobby that can be read, with one joined user. The answer is a failure
  -- exactly if the two may not share a lobby, and then all lobbies stay. Otherwise the owner's
  -- session leads to the new lobby of the two, without predictions, the lobby of the joined user is
  -- gone, and every other session leads where it led.
  pub confirm_lobby_lem :
      (s : Server J) (pkg : DataPackage J) (hash : ℕ) (l : Lobby J) (joined : User J) (err : Error)
      → get_object lib.lobby_codec pkg lib.lobby_codec.fresh ≡ (l, err)
      → failed err ≡ false
      → l.joined ≡ joined ∷ []
      → (r : Server J × DataPackage J) × (confirm_lobby lib s pkg hash ≡ some r)
        × Confirms s l.owner joined r
  unfolding confirm_lobby
  confirm_lobby_lem s pkg hash l joined err h f j =
      rw (h, f, j) (confirm_pair-Confirms s l.owner joined)

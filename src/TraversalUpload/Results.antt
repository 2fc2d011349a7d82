-- ===== src/TraversalUpload/Results.antt =====
-- The result of a lobby after the uploads of both members
-- (ServerSource/src/RequestHandler/SessionRequestHandler.h).
use nat_data_collector.Prelude.{
  ℕ, ◌≡◌, ◌∙◌, refl, sym, ap, Bool, Bool-cases, inl, inr, Option, if-true, true, false, ◌||◌, ◌==◌,
  ==_self, arith, String, some, [], ◌∷◌, if◌then◌else◌, if-both,
}
use nat_data_collector.Prelude.OrderedMap.{find, find_if, insert, find-insert, find_if-insert}
use nat_data_collector.Types.{Transaction}
use nat_data_collector.Errors.{Error}
use nat_data_collector.Protocol.{create_data}
use nat_data_collector.Database.{Mongo, increment_score}
use nat_data_collector.Server.{Server, Libs, add_lobby, send_session}
use nat_data_collector.Server.Lobbies.{send_session-lobbies}
use nat_data_collector.System.{System}
use nat_data_collector.LobbyRequests.{has_member}
use nat_data_collector.LobbyRequests.Exchange.{ArePaired}
use nat_data_collector.Data.{User, Lobby, TraversalResult}
use nat_data_collector.TraversalUpload.{
  Upload, record_client, both_connected, upload_found, told, stored, store_result,
}

or_swap : (a b c : Bool) → (a || b || c) ≡ (a || c || b)
or_swap a b c = ground arith

module _ {J D : Type 0} (lib : Libs J) (mongo : Mongo D) where
  -- What the handler leaves of a package that it could read.
  abbrev pub uploaded : System J D → ℕ → Upload → System J D
  uploaded t hash v =
      (upload_found lib mongo t hash (find_if (has_member hash) t.server.lobbies) v).0

  told-lobbies :
      (s : Server J) (owner joined : ℕ) (r : D × Error)
      → (told lib s owner joined r).server.lobbies ≡ s.lobbies
  told-lobbies s owner joined (d, err) =
      send_session-lobbies lib (send_session lib s _ owner) _ joined
      ∙ send_session-lobbies lib s _ owner

  store_result-lobbies :
      (t : System J D) (l : Lobby J) (joined : User J) (db coll : String)
      → (store_result lib mongo t l joined db coll).server.lobbies ≡ t.server.lobbies
  store_result-lobbies t l joined db coll =
      let pkg = create_data lib.json lib.traversal_result l.result Transaction.no_transaction in
      if-both (λ (u : System J D). u.server.lobbies ≡ t.server.lobbies) (both_connected l.result) _
        t
        (told-lobbies t.server l.owner.session joined.session
          (stored lib mongo t.database pkg db coll))
        refl

  store_result-database :
      (t : System J D) (l : Lobby J) (joined : User J) (db coll : String)
      → (store_result lib mongo t l joined db coll).database ≡ (
          if both_connected l.result
          then (stored lib mongo t.database
              (create_data lib.json lib.traversal_result l.result Transaction.no_transaction)
              db
              coll).0
          else t.database)
  store_result-database t l joined db coll = elim (Bool-cases (both_connected l.result)) [
    | inl e ↦ rw e refl
    | inr e ↦ rw e refl
  ]

  -- The lobby of two users with a result.
  abbrev pub lobby_with : User J → User J → TraversalResult → Lobby J
  lobby_with a b result = record { owner = a; joined = b ∷ []; result = result }

  -- The database after an upload that completes the lobby's result, or does not.
  abbrev pub database_after : D → TraversalResult → Upload → D
  database_after d result v =
      let d' =
        if both_connected result
        then (stored lib mongo d
            (create_data lib.json lib.traversal_result result Transaction.no_transaction) v.db
            v.coll).0
        else d in
      (increment_score mongo lib.json lib.text lib.flag lib.number d' v.client.meta_data.android_id
        v.db v.users).0

  pair-lobbies :
      (t : System J D) (hash : ℕ) (a b : User J) (result : TraversalResult) (v : Upload)
      → find_if (has_member hash) t.server.lobbies ≡ some (a.session, lobby_with a b result)
      → (uploaded t hash v).server.lobbies
        ≡ insert a.session
            (lobby_with a b (record_client (a.session == hash) v.client v.success result))
            t.server.lobbies
  unfolding add_lobby
  pair-lobbies t hash a b result v e =
      let m = lobby_with a b (record_client (a.session == hash) v.client v.success result) in
      ap (λ (o : Option (ℕ × Lobby J)). (upload_found lib mongo t hash o v).0.server.lobbies) e
      ∙ store_result-lobbies (record t { server = add_lobby t.server m }) m b v.db v.coll

  pair-database :
      (t : System J D) (hash : ℕ) (a b : User J) (result : TraversalResult) (v : Upload)
      → find_if (has_member hash) t.server.lobbies ≡ some (a.session, lobby_with a b result)
      → (uploaded t hash v).database
        ≡ database_after t.database (record_client (a.session == hash) v.client v.success result) v
  pair-database t hash a b result v e =
      let m = lobby_with a b (record_client (a.session == hash) v.client v.success result) in
      ap (λ (o : Option (ℕ × Lobby J)). (upload_found lib mongo t hash o v).0.database) e
      ∙ ap
          (λ (d : D).
            (increment_score mongo lib.json lib.text lib.flag lib.number d
              v.client.meta_data.android_id v.db v.users).0)
          (store_result-database (record t { server = add_lobby t.server m }) m b v.db v.coll)

  -- The second upload finds the lobby that the first has kept.
  found_again :
      (t : System J D) (hash other : ℕ) (a b : User J) (result : TraversalResult) (v : Upload)
      → find_if (has_member hash) t.server.lobbies ≡ some (a.session, lobby_with a b result)
      → find_if (has_member other) t.server.lobbies ≡ some (a.session, lobby_with a b result)
      → (has_member other
          (a.session, lobby_with a b (record_client (a.session == hash) v.client v.success result)))
        ≡ true
      → find_if (has_member other) (uploaded t hash v).server.lobbies
        ≡ some (
          a.session,
          lobby_with a b (record_client (a.session == hash) v.client v.success result),
        )
  found_again t hash other a b result v e f member =
      let m = lobby_with a b (record_client (a.session == hash) v.client v.success result) in
      ap (find_if (has_member other)) (pair-lobbies t hash a b result v e)
      ∙ find_if-insert (has_member other) a.session m _ t.server.lobbies f member

  -- Two uploads, one after the other, of both members.
  upload_twice :
      (t : System J D) (one two : ℕ) (a b : User J) (result : TraversalResult) (v w : Upload)
      → find_if (has_member one) t.server.lobbies ≡ some (a.session, lobby_with a b result)
      → find_if (has_member two) t.server.lobbies ≡ some (a.session, lobby_with a b result)
      → (has_member two
          (a.session, lobby_with a b (record_client (a.session == one) v.client v.success result)))
        ≡ true
      → let first = record_client (a.session == one) v.client v.success result in
        let both = record_client (a.session == two) w.client w.success first in
        let u = uploaded (uploaded t one v) two w in
        (find a.session u.server.lobbies ≡ some (lobby_with a b both))
        × (u.database ≡ database_after (database_after t.database first v) both w)
  upload_twice t one two a b result v w e f member =
      let first = record_client (a.session == one) v.client v.success result in
      let both = record_client (a.session == two) w.client w.success first in
      let again = found_again t one two a b result v e f member in
      (
        ap (find a.session) (pair-lobbies (uploaded t one v) two a b first w again)
            ∙ find-insert a.session a.session (lobby_with a b both)
                (uploaded t one v).server.lobbies
            ∙ if-true (a.session == a.session) _ _ (==_self a.session),
        pair-database (uploaded t one v) two a b first w again
            ∙ ap (λ (d : D). database_after d both w) (pair-database t one a b result v e),
      )

  abbrev with_sides : TraversalResult → Upload → Upload → Bool → TraversalResult
  with_sides r v w success = record r {
    success = success;
    client_punch_hole = v.client;
    client_target_hole = w.client;
  }

  upload_flags :
      (t : System J D) (one two : ℕ) (a b : User J) (result : TraversalResult) (v w : Upload)
      (p q : Bool)
      → (a.session == one) ≡ p
      → (a.session == two) ≡ q
      → find_if (has_member one) t.server.lobbies ≡ some (a.session, lobby_with a b result)
      → find_if (has_member two) t.server.lobbies ≡ some (a.session, lobby_with a b result)
      → ((r : TraversalResult) → has_member two (a.session, lobby_with a b r) ≡ true)
      → let first = record_client p v.client v.success result in
        let both = record_client q w.client w.success first in
        let u = uploaded (uploaded t one v) two w in
        (find a.session u.server.lobbies ≡ some (lobby_with a b both))
        × (u.database ≡ database_after (database_after t.database first v) both w)
  upload_flags t one two a b result v w p q is_p is_q e f member =
      rw (sym is_p, sym is_q)
        (upload_twice t one two a b result v w e f
          (member (record_client (a.session == one) v.client v.success result)))

  joined-has_member :
      (a b : User J) (r : TraversalResult)
      → has_member b.session (a.session, lobby_with a b r) ≡ true
  unfolding has_member
  joined-has_member a b r = ground arith

  owner-has_member :
      (a b : User J) (r : TraversalResult)
      → has_member a.session (a.session, lobby_with a b r) ≡ true
  unfolding has_member
  owner-has_member a b r = ground arith

  -- The owner and the only joined user of a lobby, which is the first lobby that the server finds for
  -- either of them, upload what they found, in either order, and the handler can read both packages.
  -- In either order the same lobby is kept: its result has what the owner sent as the side that
  -- punches the hole, what the joined user sent as the target, and it is a success if it was one or
  -- one of the uploads is one. Each upload counts a score of its device, and the result goes to the
  -- database with an upload exactly if both sides, as they are known then, name a connection; the
  -- side that has not sent yet is the one of the earlier result.
  pub uploads_lem :
      (t : System J D) (a b : User J) (v w : Upload) (h : ArePaired t.server a b)
      → let both : TraversalResult = record h.result {
        success = h.result.success || v.success || w.success;
        client_punch_hole = v.client;
        client_target_hole = w.client;
      } in
        let first : TraversalResult = record h.result {
          success = h.result.success || v.success;
          client_punch_hole = v.client;
        } in
        let other_first : TraversalResult = record h.result {
          success = h.result.success || w.success;
          client_target_hole = w.client;
        } in
        let last = uploaded (uploaded t a.session v) b.session w in
        let other_last = uploaded (uploaded t b.session w) a.session v in
        (find a.session last.server.lobbies ≡ some (lobby_with a b both))
        × (find a.session other_last.server.lobbies ≡ some (lobby_with a b both))
        × (last.database ≡ database_after (database_after t.database first v) both w)
        × (other_last.database ≡ database_after (database_after t.database other_first w) both v)
  unfolding record_client
  uploads_lem t a b v w h =
      let other : (a.session == b.session) ≡ false = ground (arith, h.differ) in
      let x =
        upload_flags t a.session b.session a b h.result v w true false (==_self a.session) other
          h.owner_finds h.joined_finds (joined-has_member a b) in
      let y =
        upload_flags t b.session a.session a b h.result w v false true other (==_self a.session)
          h.joined_finds h.owner_finds (owner-has_member a b) in
      let same = ap (with_sides h.result v w) (or_swap h.result.success w.success v.success) in
      (
        x.0,
        y.0 ∙ ap (λ (r : TraversalResult). some (lobby_with a b r)) same,
        x.1,
        y.1
            ∙ ap
                (λ (r : TraversalResult).
                  database_after
                    (database_after t.database
                      (record h.result {
                        success = h.result.success || w.success;
                        client_target_hole = w.client;
                      })
                      w)
                    r v)
                same,
      )

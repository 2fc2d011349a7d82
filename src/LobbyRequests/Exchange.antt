-- ===== src/LobbyRequests/Exchange.antt =====
-- The exchange of predictions between the two members of a lobby
-- (ServerSource/src/RequestHandler/SessionRequestHandler.h).
use mathlib.Core.List.{append_assoc}
use nat_data_collector.Prelude.{
  ℕ, ◌≡◌, ◌≢◌, ◌∙◌, refl, ap, Bool, true, false, some, List, [], ◌∷◌, ◌++◌, ◌==◌, ==_self, arith,
  ◌&&◌,
}
use nat_data_collector.Prelude.OrderedMap.{find, find_if, find-insert, find_if-insert}
use nat_data_collector.Protocol.{DataPackage}
use nat_data_collector.Data.{User, TraversalResult, lobby}
use nat_data_collector.Server.{Server, Libs, Post, add_users, add_lobby, send_session}
use nat_data_collector.Server.Lobbies.{send_session-lobbies}
use nat_data_collector.Server.Tasks.{reply_tasks, send_session-posts}
use nat_data_collector.LobbyRequests.{
  exchange_prediction, start_traversal, has_member, is_start, traversal,
}

module _ {J : Type 0} where
  -- The package that a user has for the other is there.
  abbrev pub has_started : User J → Bool
  has_started u = is_start u.prediction.transaction

  abbrev pub given : User J → DataPackage J → User J
  given u pkg = record u { prediction = pkg }

  -- The lobby of the two, which is the first one that is found for each of them.
  pub record ArePaired (s : Server J) (a b : User J) : Type 0 where
    pub result : TraversalResult
    pub differ : b.session ≢ a.session
    pub owner_finds :
        find_if (has_member a.session) s.lobbies
        ≡ some (a.session, record { owner = a; joined = b ∷ []; result = result })
    pub joined_finds :
        find_if (has_member b.session) s.lobbies
        ≡ some (a.session, record { owner = a; joined = b ∷ []; result = result })

  -- A new lobby of the same two is found like the old one.
  paired_again :
      (s : Server J) (a b : User J) (p q : DataPackage J)
      → ArePaired s a b
      → ArePaired (add_users s (given a p) (given b q ∷ [])) (given a p) (given b q)
  unfolding add_users add_lobby has_member
  paired_again s a b p q h =
      let l = lobby (given a p) (given b q ∷ []) in
      record {
        result = l.result;
        differ = h.differ;
        owner_finds =
            find_if-insert (has_member a.session) a.session l _ s.lobbies h.owner_finds
              (ground arith);
        joined_finds =
            find_if-insert (has_member b.session) a.session l _ s.lobbies h.joined_finds
              (ground arith);
      }

module _ {J : Type 0} (lib : Libs J) where
  from_owner :
      (s : Server J) (a b : User J) (p : DataPackage J)
      → ArePaired s a b
      → (exchange_prediction lib s p a.session).0
        ≡ start_traversal lib (add_users s a (given b p ∷ [])) a (given b p)
  unfolding exchange_prediction
  from_owner s a b p h = rw (h.owner_finds, ==_self a.session) refl

  from_joined :
      (s : Server J) (a b : User J) (p : DataPackage J)
      → ArePaired s a b
      → (exchange_prediction lib s p b.session).0
        ≡ start_traversal lib (add_users s (given a p) (b ∷ [])) (given a p) b
  unfolding exchange_prediction
  from_joined s a b p h =
      let other : (a.session == b.session) ≡ false = ground (arith, h.differ) in
      rw (h.joined_finds, other) refl

  abbrev pub sent_to_both : DataPackage J → ℕ → DataPackage J → ℕ → List (Post J)
  sent_to_both p a q b = reply_tasks lib (traversal p) a ++ reply_tasks lib (traversal q) b

  -- Once both predictions are there, both members are sent their own.
  both_started :
      (s : Server J) (a b : User J)
      → has_started a ≡ true
      → has_started b ≡ true
      → ((start_traversal lib s a b).posts
          ≡ s.posts ++ sent_to_both a.prediction a.session b.prediction b.session)
        × ((start_traversal lib s a b).lobbies ≡ s.lobbies)
  both_started s a b e f =
      let t = send_session lib s (traversal a.prediction) a.session in
      (
        rw (e, f)
            (send_session-posts lib t (traversal b.prediction) b.session
              ∙ ap (λ ps. ps ++ reply_tasks lib (traversal b.prediction) b.session)
                  (send_session-posts lib s (traversal a.prediction) a.session)
              ∙ append_assoc s.posts (reply_tasks lib (traversal a.prediction) a.session)
                  (reply_tasks lib (traversal b.prediction) b.session)),
        rw (e, f) (simp send_session-lobbies),
      )

  waits :
      (s : Server J) (a b : User J)
      → has_started a && has_started b ≡ false
      → start_traversal lib s a b ≡ s
  waits s a b e = rw e refl

  -- The exchange that completes a lobby.
  completed :
      (s t : Server J) (a b : User J)
      → has_started a ≡ true
      → has_started b ≡ true
      → t ≡ start_traversal lib (add_users s a (b ∷ [])) a b
      → (t.posts ≡ s.posts ++ sent_to_both a.prediction a.session b.prediction b.session)
        × (find a.session t.lobbies ≡ some (lobby a (b ∷ [])))
  unfolding add_users add_lobby
  completed s t a b e f h =
      let (posts, lobbies) = both_started (add_users s a (b ∷ [])) a b e f in
      (
        rw h posts,
        rw
            (
              h,
              lobbies,
              find-insert a.session a.session (lobby a (b ∷ [])) s.lobbies,
              ==_self a.session,
            )
            refl,
      )

  -- The owner and the only joined user of a lobby, which is the first lobby that the server finds
  -- for either of them (a user who also stands in a lobby before it is not covered), neither of whom
  -- has a prediction yet, send a package that names a transaction, in either order. After the first package nothing is sent. After the second the
  -- owner is sent the package of the joined user and the joined user that of the owner, as start of
  -- the traversal, and the lobby keeps both.
  pub exchange_prediction_lem :
      (s : Server J) (a b : User J) (p q : DataPackage J)
      → ArePaired s a b
      → has_started a ≡ false
      → has_started b ≡ false
      → is_start p.transaction ≡ true
      → is_start q.transaction ≡ true
      → let first = (exchange_prediction lib s p a.session).0 in
        let second = (exchange_prediction lib first q b.session).0 in
        let other_first = (exchange_prediction lib s q b.session).0 in
        let other_second = (exchange_prediction lib other_first p a.session).0 in
        (first.posts ≡ s.posts)
        × (second.posts ≡ s.posts ++ sent_to_both q a.session p b.session)
        × (find a.session second.lobbies ≡ some (lobby (given a q) (given b p ∷ [])))
        × (other_first.posts ≡ s.posts)
        × (other_second.posts ≡ s.posts ++ sent_to_both q a.session p b.session)
        × (find a.session other_second.lobbies ≡ some (lobby (given a q) (given b p ∷ [])))
  unfolding add_users add_lobby
  exchange_prediction_lem s a b p q h ea eb ep eq =
      let s1 = add_users s a (given b p ∷ []) in
      let s2 = add_users s (given a q) (b ∷ []) in
      let e1 : (exchange_prediction lib s p a.session).0 ≡ s1 =
        from_owner s a b p h ∙ waits s1 a (given b p) (rw ea refl) in
      let e2 : (exchange_prediction lib s q b.session).0 ≡ s2 =
        from_joined s a b q h ∙ waits s2 (given a q) b (rw (eb, eq) refl) in
      let (posts, found) =
        completed s1 _ (given a q) (given b p) eq ep
          (from_joined s1 a (given b p) q (paired_again s a b a.prediction p h)) in
      let (posts', found') =
        completed s2 _ (given a q) (given b p) eq ep
          (from_owner s2 (given a q) b p (paired_again s a b q b.prediction h)) in
      (rw e1 refl, rw e1 posts, rw e1 found, rw e2 refl, rw e2 posts', rw e2 found')

-- ===== src/LobbyRequests/Kept.antt =====
-- The handlers of ServerSource/src/RequestHandler/SessionRequestHandler.h change the server by four
-- operations only: what these keep, every handler keeps.
use nat_data_collector.Prelude.{
  ℕ, String, ◌≢◌, ◌&&◌, Option, none, some, List, [], ◌∷◌, ◌==◌, ◌>>=◌, arith, All, Bool-cases,
  Option-cases, inl, inr, After, After-bind,
}
use nat_data_collector.Prelude.OrderedMap.{find, find_if, find_if-All}
use nat_data_collector.Errors.{failed}
use nat_data_collector.Types.{Transaction, MetaDataField}
use nat_data_collector.Protocol.{
  DataPackage, MetaVariant, add_meta, get, start, get_object, create_bare,
}
use nat_data_collector.Data.{User, Lobby, user, lobby}
use nat_data_collector.Server.{
  Server, Libs, add_lobby, add_users, remove_lobby, send_session, send_all_lobbies,
}
use nat_data_collector.Server.Lobbies.{JoinedIsValid, EntryIsValid}
use nat_data_collector.LobbyRequests.{
  create_lobby, created, ask_join_lobby, asked, asked_for, confirm_lobby, confirmed, confirm_pair,
  confirm_users, announce, forget, exchange_prediction, exchange_in, exchange_pair, start_traversal,
  has_member, accepted, may_confirm, is_start, lobbies_package, traversal,
}

-- A property of the server that its operations keep, and that says that the lobbies are valid.
pub record IsKept {J : Type 0} (lib : Libs J) (P : Server J → Type 0) : Type 0 where
  pub entries : (s : Server J) → P s → All EntryIsValid s.lobbies
  pub sent : (s : Server J) (pkg : DataPackage J) (n : ℕ) → P s → P (send_session lib s pkg n)
  pub sent_all : (s : Server J) (pkg : DataPackage J) → P s → P (send_all_lobbies lib s pkg)
  pub added :
      (s : Server J) (l : Lobby J)
      → JoinedIsValid l.owner.session l.joined
      → P s
      → P (add_lobby s l)
  pub removed : (s : Server J) (u : User J) → P s → P (remove_lobby s u)

module _ {J : Type 0} (lib : Libs J) (P : Server J → Type 0) (kept : IsKept lib P) where
  users_added :
      (s : Server J) (owner : User J) (joined : List (User J))
      → JoinedIsValid owner.session joined
      → P s
      → P (add_users s owner joined)
  unfolding add_users
  users_added s owner joined j v = kept.added s (lobby owner joined) j v

  created-After :
      (s : Server J) (hash : ℕ) (w : MetaVariant J (Unit {0} × String))
      → P s
      → P (created lib s hash w).0
  created-After s hash w v = elim (Bool-cases (failed w.error)) [
    | inl e ↦ rw e v
    | inr e ↦
        let t = add_users s (user lib.json hash w.values.1) [] in
        rw e (
          kept.sent_all t (lobbies_package lib t)
            (users_added s (user lib.json hash w.values.1) [] tt v))
  ]

  pub create_lobby-After :
      (s : Server J) (pkg : DataPackage J) (hash : ℕ) → P s → After P (create_lobby lib s pkg hash)
  unfolding create_lobby
  create_lobby-After s pkg hash v =
      After-bind P (get lib.json lib.text (start lib.json pkg) MetaDataField.username)
        (λ w. some (created lib s hash w)) (λ w. created-After s hash w v)

  asked-After : (s : Server J) (mine other : Option (Lobby J)) → P s → P (asked lib s mine other).0
  asked-After s none other v = v
  asked-After s (some mine) none v = v
  asked-After s (some mine) (some other) v =
      elim (Bool-cases (mine.owner.session == other.owner.session)) [
        | inl e ↦ rw e v
        | inr e ↦ rw e (kept.sent s _ other.owner.session v)
      ]

  asked_for-After :
      (s : Server J) (w : MetaVariant J ((Unit {0} × ℕ) × ℕ)) → P s → P (asked_for lib s w).0
  asked_for-After s w v = elim (Bool-cases (failed w.error)) [
    | inl e ↦ rw e v
    | inr e ↦ rw e (asked-After s (find w.values.0.1 s.lobbies) (find w.values.1 s.lobbies) v)
  ]

  pub ask_join_lobby-After :
      (s : Server J) (pkg : DataPackage J) (hash : ℕ)
      → P s
      → After P (ask_join_lobby lib s pkg hash)
  unfolding ask_join_lobby
  ask_join_lobby-After s pkg hash v =
      After-bind P (get lib.json lib.number (start lib.json pkg) MetaDataField.user_session_key)
        (λ x. get lib.json lib.number x MetaDataField.join_session_key >>= λ w.
          some (asked_for lib s w))
        λ x.
          After-bind P (get lib.json lib.number x MetaDataField.join_session_key)
            (λ w. some (asked_for lib s w)) λ w. asked_for-After s w v

  announce-After :
      (s : Server J) (analyze : DataPackage J) (owner joined : ℕ)
      → P s
      → P (announce lib s analyze owner joined)
  announce-After s analyze owner joined v =
      let t = send_session lib (send_session lib s analyze joined) analyze owner in
      let tv =
        kept.sent (send_session lib s analyze joined) analyze owner
          (kept.sent s analyze joined v) in
      kept.sent (send_all_lobbies lib t (lobbies_package lib t)) (lobbies_package lib t) joined
        (kept.sent_all t (lobbies_package lib t) tv)

  confirmed-After :
      (s : Server J) (owner joined : User J)
      → joined.session ≢ owner.session
      → P s
      → After P (confirmed lib s owner joined)
  unfolding confirmed
  confirmed-After s owner joined ne v =
      let t = remove_lobby (remove_lobby s joined) owner in
      let tv : P t = kept.removed (remove_lobby s joined) owner (kept.removed s joined v) in
      let u = add_users t (forget lib owner) (forget lib joined ∷ []) in
      let uv : P u = users_added t (forget lib owner) (forget lib joined ∷ []) ne tv in
      After-bind P
        (add_meta lib.json lib.number (create_bare lib.json Transaction.client_start_analyze_nat)
          MetaDataField.session owner.session)
        (λ analyze. some (announce lib u analyze owner.session joined.session, accepted lib))
        (λ analyze. announce-After u analyze owner.session joined.session uv)

  confirm_pair-After :
      (s : Server J) (owner joined : User J) → P s → After P (confirm_pair lib s owner joined)
  confirm_pair-After s owner joined v =
      elim (Bool-cases (may_confirm s owner.session joined.session)) [
        | inr e ↦ rw e v
        | inl e ↦ elim (Bool-cases (owner.session == joined.session)) [
          | inl same ↦ rw (e, same) v
          | inr other ↦ rw (e, other) (confirmed-After s owner joined (ground arith) v)
        ]
      ]

  confirm_users-After :
      (s : Server J) (owner : User J) (joined : List (User J))
      → P s
      → After P (confirm_users lib s owner joined)
  confirm_users-After s owner [] v = v
  confirm_users-After s owner (u ∷ []) v = confirm_pair-After s owner u v
  confirm_users-After s owner (u ∷ w ∷ us) v = v

  pub confirm_lobby-After :
      (s : Server J) (pkg : DataPackage J) (hash : ℕ) → P s → After P (confirm_lobby lib s pkg hash)
  unfolding confirm_lobby
  confirm_lobby-After s pkg hash v =
      let (l, err) = get_object lib.lobby_codec pkg lib.lobby_codec.fresh in
      elim (Bool-cases (failed err)) [
        | inl e ↦ rw e v
        | inr e ↦ rw e (confirm_users-After s l.owner l.joined v)
      ]

  start_traversal-After :
      (s : Server J) (owner joined : User J) → P s → P (start_traversal lib s owner joined)
  start_traversal-After s owner joined v =
      elim (Bool-cases
        (is_start owner.prediction.transaction && is_start joined.prediction.transaction)) [
          | inl e ↦ rw e (
              kept.sent (send_session lib s (traversal owner.prediction) owner.session)
                (traversal joined.prediction) joined.session
                (kept.sent s (traversal owner.prediction) owner.session v))
          | inr e ↦ rw e v
        ]

  exchange_pair-After :
      (s : Server J) (pkg : DataPackage J) (hash : ℕ) (owner joined : User J)
      → joined.session ≢ owner.session
      → P s
      → P (exchange_pair lib s pkg hash owner joined).0
  exchange_pair-After s pkg hash owner joined ne v =
      let given = record joined { prediction = pkg } in
      let giver = record owner { prediction = pkg } in
      elim (Bool-cases (owner.session == hash)) [
        | inl e ↦ rw e (
            start_traversal-After (add_users s owner (given ∷ [])) owner given
              (users_added s owner (given ∷ []) ne v))
        | inr e ↦ rw e (
            start_traversal-After (add_users s giver (joined ∷ [])) giver joined
              (users_added s giver (joined ∷ []) ne v))
      ]

  exchange_in-After :
      (s : Server J) (pkg : DataPackage J) (hash : ℕ) (owner : User J) (joined : List (User J))
      → JoinedIsValid owner.session joined
      → P s
      → P (exchange_in lib s pkg hash owner joined).0
  exchange_in-After s pkg hash owner [] j v = v
  exchange_in-After s pkg hash owner (u ∷ []) j v = exchange_pair-After s pkg hash owner u j v
  exchange_in-After s pkg hash owner (u ∷ w ∷ us) j v = v

  pub exchange_prediction-After :
      (s : Server J) (pkg : DataPackage J) (hash : ℕ)
      → P s
      → P (exchange_prediction lib s pkg hash).0
  unfolding exchange_prediction
  exchange_prediction-After s pkg hash v =
      elim (Option-cases (find_if (has_member hash) s.lobbies)) [
        | inl e ↦ rw e v
        | inr (x, e) ↦
            let (entry, _) =
              find_if-All EntryIsValid (has_member hash) x s.lobbies (kept.entries s v) e in
            rw e (exchange_in-After s pkg hash x.1.owner x.1.joined entry.1 v)
      ]

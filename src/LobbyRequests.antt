-- ===== src/LobbyRequests.antt =====
-- The handlers of ServerSource/src/RequestHandler/SessionRequestHandler.h.
pub mod Kept
pub mod Confirm
pub mod Exchange
use nat_data_collector.Prelude.{
  ℕ, String, Bool, true, false, not, ◌&&◌, ◌||◌, Option, none, some, List, [], ◌∷◌, ◌==◌,
  if◌then◌else◌, ◌>>=◌,
}
use nat_data_collector.Prelude.OrderedMap.{find, contains, find_if}
use nat_data_collector.Types.{ErrorType, Transaction, MetaDataField, ConnectionType}
use nat_data_collector.Errors.{Error, no_error, failed}
use nat_data_collector.Protocol.{
  DataPackage, MetaVariant, empty_package, create_error, create, create_bare, create_data, add_meta,
  get, start, get_object, start_object,
}
use nat_data_collector.Data.{
  User, Lobby, TraversalClient, TraversalResult, user, lobby, blank_traversal_result,
}
use nat_data_collector.Database.{Mongo, insert_element, increment_score}
use nat_data_collector.Server.{
  Server, Libs, add_lobby, add_users, remove_lobby, get_empty_lobbies, send_session,
  send_all_lobbies,
}
use nat_data_collector.System.{System, Outcome}

abbrev pub is_start : Transaction → Bool
is_start Transaction.no_transaction = false
is_start _ = true

module _ {J : Type 0} where
  -- SERVER_CONFIRM_LOBBY. Whether the lobby of one session has the other as first joined user.
  abbrev pub first_is : List (User J) → ℕ → Bool
  first_is [] session = false
  first_is (u ∷ us) session = u.session == session

  abbrev pub leads_to : Option (Lobby J) → ℕ → Bool
  leads_to none session = false
  leads_to (some l) session = first_is l.joined session

  unfoldable pub may_confirm : Server J → ℕ → ℕ → Bool
  may_confirm s owner joined =
      leads_to (find owner s.lobbies) joined
      || leads_to (find joined s.lobbies) owner
      || (contains owner s.lobbies && contains joined s.lobbies)

  -- The lobby of a session, as owner or as the one joined user: the first in the order of keys.
  abbrev pub only_joined : List (User J) → ℕ → Bool
  only_joined (u ∷ []) session = u.session == session
  only_joined _ session = false

  unfoldable pub has_member : ℕ → ℕ × Lobby J → Bool
  has_member session (key, l) = l.owner.session == session || only_joined l.joined session

  abbrev pub traversal : DataPackage J → DataPackage J
  traversal pkg = record pkg { transaction = Transaction.client_start_traversal }

module _ {J : Type 0} (lib : Libs J) where
  abbrev pub refused : List String → DataPackage J
  refused messages = create lib.json ErrorType.error messages

  abbrev pub accepted : DataPackage J
  accepted = create lib.json ErrorType.ok []

  abbrev pub lobbies_package : Server J → DataPackage J
  lobbies_package s =
      create_data lib.json lib.all_lobbies (get_empty_lobbies s) Transaction.client_receive_lobbies

  -- SERVER_CREATE_LOBBY.
  abbrev pub created : Server J → ℕ → MetaVariant J (Unit {0} × String) → Server J × DataPackage J
  created s hash v =
      if failed v.error
      then (s, create_error lib.json v.error)
      else let t = add_users s (user lib.json hash v.values.1) [] in
        (send_all_lobbies lib t (lobbies_package t), accepted)

  unfoldable pub create_lobby : Server J → DataPackage J → ℕ → Option (Server J × DataPackage J)
  create_lobby s pkg hash =
      get lib.json lib.text (start lib.json pkg) MetaDataField.username >>= λ v.
      some (created s hash v)

  -- SERVER_ASK_JOIN_LOBBY.
  abbrev pub asked : Server J → Option (Lobby J) → Option (Lobby J) → Server J × DataPackage J
  asked s (some mine) (some other) =
      if mine.owner.session == other.owner.session
      then (s, refused ("You can not join your own session" ∷ []))
      else (
        send_session lib s
            (create_data lib.json lib.lobby_codec (lobby other.owner (mine.owner ∷ []))
              Transaction.client_confirm_join_lobby)
            other.owner.session,
        accepted,
      )
  asked s _ _ = (s, refused ("User lobby and/or joined lobby does not exist" ∷ []))

  abbrev pub asked_for : Server J → MetaVariant J ((Unit {0} × ℕ) × ℕ) → Server J × DataPackage J
  asked_for s v =
      if failed v.error
      then (s, create_error lib.json v.error)
      else asked s (find v.values.0.1 s.lobbies) (find v.values.1 s.lobbies)

  unfoldable pub ask_join_lobby : Server J → DataPackage J → ℕ → Option (Server J × DataPackage J)
  ask_join_lobby s pkg hash =
      get lib.json lib.number (start lib.json pkg) MetaDataField.user_session_key >>= λ v.
      get lib.json lib.number v MetaDataField.join_session_key >>= λ w. some (asked_for s w)

  -- SERVER_CONFIRM_LOBBY.
  abbrev pub forget : User J → User J
  forget u = record u { prediction = empty_package lib.json }

  -- The messages behind a confirmed lobby.
  abbrev pub announce : Server J → DataPackage J → ℕ → ℕ → Server J
  announce s analyze owner joined =
      let t = send_session lib (send_session lib s analyze joined) analyze owner in
      let update = lobbies_package t in
      send_session lib (send_all_lobbies lib t update) update joined

  unfoldable pub confirmed : Server J → User J → User J → Option (Server J × DataPackage J)
  confirmed s owner joined =
      let t = remove_lobby (remove_lobby s joined) owner in
      let u = add_users t (forget owner) (forget joined ∷ []) in
      add_meta lib.json lib.number (create_bare lib.json Transaction.client_start_analyze_nat)
        MetaDataField.session owner.session
      >>= λ analyze. some (announce u analyze owner.session joined.session, accepted)

  abbrev pub confirm_pair : Server J → User J → User J → Option (Server J × DataPackage J)
  confirm_pair s owner joined =
      if not (may_confirm s owner.session joined.session)
      then some (s, refused ("Other client disconnected ... Abort" ∷ []))
      else if owner.session == joined.session
      then some (s, refused ("You can not join your own session" ∷ []))
      else confirmed s owner joined

  abbrev pub confirm_users : Server J → User J → List (User J) → Option (Server J × DataPackage J)
  confirm_users s owner (joined ∷ []) = confirm_pair s owner joined
  confirm_users s owner _ =
      some (s, refused ("invalid lobby to confirm, lobby must have exactly 1 joined user" ∷ []))

  abbrev pub confirm_parsed : Server J → Lobby J × Error → Option (Server J × DataPackage J)
  confirm_parsed s (l, err) =
      if failed err then some (s, create_error lib.json err) else confirm_users s l.owner l.joined

  unfoldable pub confirm_lobby : Server J → DataPackage J → ℕ → Option (Server J × DataPackage J)
  confirm_lobby s pkg hash = confirm_parsed s (get_object lib.lobby_codec pkg lib.lobby_codec.fresh)

  -- SERVER_EXCHANGE_PREDICTION: the package of one side is kept as the prediction of the other.
  abbrev pub start_traversal : Server J → User J → User J → Server J
  start_traversal s owner joined =
      if is_start owner.prediction.transaction && is_start joined.prediction.transaction
      then send_session lib (send_session lib s (traversal owner.prediction) owner.session)
          (traversal joined.prediction) joined.session
      else s

  abbrev pub exchanged : Server J → User J → User J → Server J × DataPackage J
  exchanged s owner joined =
      (start_traversal (add_users s owner (joined ∷ [])) owner joined, accepted)

  abbrev pub exchange_pair :
      Server J → DataPackage J → ℕ → User J → User J → Server J × DataPackage J
  exchange_pair s pkg hash owner joined =
      if owner.session == hash
      then exchanged s owner (record joined { prediction = pkg })
      else exchanged s (record owner { prediction = pkg }) joined

  abbrev pub no_lobby : DataPackage J
  no_lobby = refused ("Can not find associated lobby to exchange prediction" ∷ [])

  abbrev pub exchange_in :
      Server J → DataPackage J → ℕ → User J → List (User J) → Server J × DataPackage J
  exchange_in s pkg hash owner (joined ∷ []) = exchange_pair s pkg hash owner joined
  exchange_in s pkg hash owner _ = (s, no_lobby)

  abbrev pub exchange_found :
      Server J → DataPackage J → ℕ → Option (ℕ × Lobby J) → Server J × DataPackage J
  exchange_found s pkg hash none = (s, no_lobby)
  exchange_found s pkg hash (some (key, l)) = exchange_in s pkg hash l.owner l.joined

  unfoldable pub exchange_prediction : Server J → DataPackage J → ℕ → Server J × DataPackage J
  unfolding has_member
  exchange_prediction s pkg hash = exchange_found s pkg hash (find_if (has_member hash) s.lobbies)

-- ===== src/Client/Requests.antt =====
-- The requests of the client to the server: AndroidSource/src/Components/NatTraverserClient.cpp.
-- `none` is an exception of nlohmann::json, or of the look-up of a key.
use text.Mathlib.Text.{◌==◌ as str_eq}
use nat_data_collector.Prelude.{
  ℕ, String, true, not, Option, none, some, [], ◌∷◌, if◌then◌else◌, ◌>>=◌,
}
use nat_data_collector.Types.{Transaction, MetaDataField}
use nat_data_collector.Errors.{Error}
use nat_data_collector.Json.{Conversion, Codec}
use nat_data_collector.Protocol.{DataPackage, create_bare, create_data, add_meta}
use nat_data_collector.Framing.Package.{Wire}
use nat_data_collector.Data.{Address, Lobby, AllLobbies}
use nat_data_collector.Client.{Client, Queue, valid, failure, push_package}

-- What the requests take from the libraries.
pub record Formats (J : Type 0) : Type 0 where
  pub wire : Wire J
  pub text : Conversion J String
  pub number : Conversion J ℕ
  pub lobby : Codec J (Lobby J)
  pub address : Codec J Address

abbrev pub with_write_queue : Client → Error × Option Queue → Error × Client
with_write_queue c (err, q) = (err, record c { write_queue = q })

module _ {J : Type 0} (formats : Formats J) where
  -- The check of `rw_future`, and the package in the write queue.
  abbrev pub request : Client → String → DataPackage J → Error × Client
  request c complaint pkg =
      if not (valid c.rw_future)
      then (failure complaint, c)
      else with_write_queue c (push_package formats.wire c.write_queue pkg true)

  -- `ServerTransactionAsync`.
  unfoldable pub server_transaction_async : Client → DataPackage J → Error × Client
  unfolding push_package
  server_transaction_async c pkg = request c "Please call connect before any other action" pkg

  abbrev pub add_text : DataPackage J → MetaDataField → String → Option (DataPackage J)
  add_text pkg field s = add_meta formats.wire.json formats.text pkg field s

  abbrev pub add_number : DataPackage J → MetaDataField → ℕ → Option (DataPackage J)
  add_number pkg field n = add_meta formats.wire.json formats.number pkg field n

  -- `RegisterUserAsync`.
  unfoldable pub register_user_async : Client → String → Option (Error × Client)
  unfolding push_package create_bare add_meta
  register_user_async c username =
      add_text (create_bare formats.wire.json Transaction.server_create_lobby)
        MetaDataField.username username
      >>= λ pkg. some (request c "Please call connect before registering anything" pkg)

  -- `AskJoinLobbyAsync`.
  unfoldable pub ask_join_lobby_async : Client → ℕ → ℕ → Option (Error × Client)
  unfolding server_transaction_async create_bare add_meta
  ask_join_lobby_async c join_session_key user_session_key =
      add_number (create_bare formats.wire.json Transaction.server_ask_join_lobby)
        MetaDataField.join_session_key join_session_key
      >>= λ pkg. add_number pkg MetaDataField.user_session_key user_session_key >>= λ all.
          some (server_transaction_async c all)

  -- `ConfirmLobbyAsync`.
  unfoldable pub confirm_lobby_async : Client → Lobby J → Error × Client
  unfolding server_transaction_async create_data
  confirm_lobby_async c lobby =
      server_transaction_async c
        (create_data formats.wire.json formats.lobby lobby Transaction.server_confirm_lobby)

  -- `ExchangePredictionAsync`.
  unfoldable pub exchange_prediction_async : Client → Address → ℕ → ℕ → Option (Error × Client)
  unfolding server_transaction_async create_data add_meta
  exchange_prediction_async c prediction traversal_sample_size traversal_sample_rate =
      add_number
        (create_data formats.wire.json formats.address prediction
          Transaction.server_exchange_prediction)
        MetaDataField.traversal_size traversal_sample_size
      >>= λ pkg. add_number pkg MetaDataField.traversal_rate traversal_sample_rate >>= λ all.
          some (server_transaction_async c all)

  -- `UploadToMongoDBAsync`.
  unfoldable pub upload_to_mongo_db_async :
      {A : Type 0}
      → Client
      → Codec J A
      → A
      → String
      → String
      → String
      → String
      → Option (Error × Client)
  unfolding server_transaction_async create_data add_meta
  upload_to_mongo_db_async c codec object db_name coll_name user_coll android_id =
      add_text (create_data formats.wire.json codec object Transaction.server_insert_mongo)
        MetaDataField.db_name db_name
      >>= λ p. add_text p MetaDataField.coll_name coll_name >>= λ q.
          add_text q MetaDataField.users_coll_name user_coll >>= λ r.
          add_text r MetaDataField.android_id android_id >>= λ all.
          some (server_transaction_async c all)

-- `FindUserSession`: the session of the first lobby whose owner has the name.
unfoldable pub find_user_session : {J : Type 0} → String → AllLobbies J → Option ℕ
find_user_session username [] = none
find_user_session username ((session, lobby) ∷ lobbies) =
    let rest = find_user_session username lobbies in
    if str_eq lobby.owner.username username then some session else rest

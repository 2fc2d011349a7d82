-- ===== src/TraversalUpload.antt =====
-- The handler SERVER_UPLOAD_TRAVERSAL_RESULT of
-- ServerSource/src/RequestHandler/SessionRequestHandler.h.
pub mod Kept
pub mod Results
use nat_data_collector.Prelude.{
  ℕ, String, Bool, true, false, ◌&&◌, ◌||◌, Option, none, some, List, [], ◌∷◌, ◌==◌, if◌then◌else◌,
  ◌>>=◌,
}
use nat_data_collector.Prelude.OrderedMap.{find_if}
use nat_data_collector.Types.{ErrorType, Transaction, MetaDataField, ConnectionType}
use nat_data_collector.Errors.{Error, failed}
use nat_data_collector.Protocol.{
  DataPackage, MetaVariant, create_error, create_bare, create_data, get, start_object,
}
use nat_data_collector.Data.{User, Lobby, TraversalClient, TraversalResult}
use nat_data_collector.Database.{Mongo, insert_element, increment_score}
use nat_data_collector.Server.{Server, Libs, add_lobby, send_session}
use nat_data_collector.System.{System, Outcome}
use nat_data_collector.LobbyRequests.{has_member, no_lobby, accepted}

-- What the handler reads from the package.
pub record Upload : Type 0 where
  pub client : TraversalClient
  pub success : Bool
  pub db : String
  pub coll : String
  pub users : String

abbrev pub upload_of : ((((Unit {0} × TraversalClient) × Bool) × String) × String) × String → Upload
upload_of (((((u, client), success), db), coll), users) = record {
  client = client;
  success = success;
  db = db;
  coll = coll;
  users = users;
}

abbrev pub is_connected : ConnectionType → Bool
is_connected ConnectionType.not_connected = false
is_connected _ = true

-- The owner always punches holes.
unfoldable pub record_client : Bool → TraversalClient → Bool → TraversalResult → TraversalResult
record_client true c success r = record r { client_punch_hole = c; success = r.success || success }
record_client false c success r = record r {
  client_target_hole = c;
  success = r.success || success;
}

abbrev pub both_connected : TraversalResult → Bool
both_connected r =
    is_connected r.client_punch_hole.connection_type
    && is_connected r.client_target_hole.connection_type

module _ {J : Type 0} where
  -- The lobby with what one of its members found.
  abbrev pub with_result : Lobby J → ℕ → Upload → Lobby J
  with_result l hash v = record l {
    result = record_client (l.owner.session == hash) v.client v.success l.result;
  }

module _ {J D : Type 0} (lib : Libs J) where
  -- Both members hear how the storing ended.
  abbrev pub told : Server J → ℕ → ℕ → D × Error → System J D
  told s owner joined (d, err) =
      let to_send =
        if failed err
        then create_error lib.json err
        else create_bare lib.json Transaction.client_upload_success in
      record {
        server = send_session lib (send_session lib s to_send owner) to_send joined;
        database = d;
      }

  abbrev pub upload_counted : Server J → D × Error → System J D × DataPackage J
  upload_counted s (d, err) = (
    record { server = s; database = d },
    if failed err then create_error lib.json err else accepted lib,
  )

module _ {J D : Type 0} (lib : Libs J) (mongo : Mongo D) where
  -- The result goes to the database.
  abbrev pub stored : D → DataPackage J → String → String → D × Error
  stored d to_database db coll =
      if failed to_database.error
      then (d, to_database.error)
      else insert_element mongo d (lib.json.dump to_database.content) db coll

  abbrev pub store_result : System J D → Lobby J → User J → String → String → System J D
  store_result t l joined db coll =
      if both_connected l.result
      then told lib t.server l.owner.session joined.session (
          stored t.database
            (create_data lib.json lib.traversal_result l.result Transaction.no_transaction) db coll)
      else t

  abbrev pub count_upload : System J D → Upload → System J D × DataPackage J
  count_upload t v = upload_counted lib t.server (
      increment_score mongo lib.json lib.text lib.flag lib.number t.database
        v.client.meta_data.android_id v.db v.users)

  abbrev pub upload_pair : System J D → ℕ → Lobby J → User J → Upload → System J D × DataPackage J
  upload_pair t hash l joined v =
      let m = with_result l hash v in
      count_upload (store_result (record t { server = add_lobby t.server m }) m joined v.db v.coll)
        v

  abbrev pub upload_in :
      System J D → ℕ → Lobby J → List (User J) → Upload → System J D × DataPackage J
  upload_in t hash l (joined ∷ []) v = upload_pair t hash l joined v
  upload_in t hash l _ v = (t, no_lobby lib)

  abbrev pub upload_found :
      System J D → ℕ → Option (ℕ × Lobby J) → Upload → System J D × DataPackage J
  upload_found t hash none v = (t, no_lobby lib)
  upload_found t hash (some (key, l)) v = upload_in t hash l l.joined v

  abbrev pub upload_with :
      System J D
      → ℕ
      → MetaVariant J (((((Unit {0} × TraversalClient) × Bool) × String) × String) × String)
      → System J D × DataPackage J
  upload_with t hash v =
      if failed v.error
      then (t, create_error lib.json v.error)
      else upload_found t hash (find_if (has_member hash) t.server.lobbies) (upload_of v.values)

  unfoldable pub upload_traversal_result : System J D → DataPackage J → ℕ → Outcome J D
  unfolding has_member
  upload_traversal_result t pkg hash =
      get lib.json lib.flag (start_object lib.traversal_client pkg) MetaDataField.success >>= λ a.
      get lib.json lib.text a MetaDataField.db_name >>= λ b.
      get lib.json lib.text b MetaDataField.coll_name >>= λ c.
      get lib.json lib.text c MetaDataField.users_coll_name >>= λ v. some (upload_with t hash v)

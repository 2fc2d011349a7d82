-- ===== src/Transactions.antt =====
-- The dispatch of ServerSource/src/RequestHandler/ServerTransactionHandler.cpp over the handlers,
-- and the steps of the server process. `request_map` has every transaction strictly between
-- SERVER_START and SERVER_END.
pub mod Kept
pub mod Steps
pub mod Reachable
pub mod Posts
pub mod Rejected
pub mod Returns
use text.Mathlib.Text.{◌==◌ as str_eq}
use Prim.Native.String.{slice, len}
use nat_data_collector.Prelude.{
  ℕ, ◌%◌, leb, String, Bool, true, false, not, ◌&&◌, Option, none, some, List, [], ◌∷◌,
  if◌then◌else◌, ◌>>=◌,
}
use nat_data_collector.Types.{ErrorType, Transaction, transaction_code}
use nat_data_collector.Errors.{Error, failed}
use nat_data_collector.Protocol.{DataPackage, app_version, create_error}
use nat_data_collector.Database.{Mongo}
use nat_data_collector.Server.{Server, Libs, send_session}
use nat_data_collector.System.{System, Outcome}
use nat_data_collector.LobbyRequests.{
  create_lobby, ask_join_lobby, confirm_lobby, exchange_prediction, refused,
}
use nat_data_collector.DatabaseRequests.{
  Reply, insert_mongo, get_collection, get_version_data, get_information_data, get_scores,
}
use nat_data_collector.TraversalUpload.{upload_traversal_result}

-- A literal plus a number is a pointer to that position of the literal, and of no use behind its end.
unfoldable pub literal_at : String → ℕ → Option String
literal_at literal n = if leb n (len literal) then some (slice literal n (len literal)) else none

abbrev pub is_version_request : Transaction → Bool
is_version_request Transaction.server_get_version_data = true
is_version_request _ = false

module _ {J D : Type 0} where
  abbrev pub on_server : System J D → Option (Server J × DataPackage J) → Outcome J D
  on_server t none = none
  on_server t (some (s, pkg)) = some (record t { server = s }, pkg)

  abbrev pub on_database : System J D → Reply J D → Outcome J D
  on_database t none = none
  on_database t (some (d, pkg)) = some (record t { database = d }, pkg)

module _ {J : Type 0} where
  abbrev pub is_outdated : DataPackage J → Bool
  is_outdated pkg = not (str_eq pkg.version app_version) && not (is_version_request pkg.transaction)

module _ {J : Type 0} (lib : Libs J) where
  -- The number is cut to a uint16_t.
  abbrev pub no_handler : Transaction → Option (DataPackage J)
  no_handler t =
      literal_at "No handler implemented for type " (transaction_code t % 65536) >>= λ message.
      some (refused lib (message ∷ []))

  abbrev pub reply_to : {D : Type 0} → ℕ → System J D × DataPackage J → System J D
  reply_to hash (t, pkg) = record t { server = send_session lib t.server pkg hash }

  abbrev pub version_mismatch : DataPackage J
  version_mismatch = refused lib (
      "Version mismatch" ∷ "Please update your App to the latest version"
      ∷ "Restart app for more info" ∷ [])

module _ {J D : Type 0} (lib : Libs J) (mongo : Mongo D) where
  -- The handler of a transaction.
  unfoldable pub handle_request : System J D → DataPackage J → ℕ → Transaction → Outcome J D
  unfolding transaction_code
  handle_request t pkg hash Transaction.server_insert_mongo =
      on_database t (insert_mongo lib mongo t.database pkg)
  handle_request t pkg hash Transaction.server_get_scores =
      on_database t (get_scores lib mongo t.database pkg)
  handle_request t pkg hash Transaction.server_get_version_data =
      on_database t (get_version_data lib mongo t.database pkg)
  handle_request t pkg hash Transaction.server_get_information_data =
      on_database t (get_information_data lib mongo t.database pkg)
  handle_request t pkg hash Transaction.server_get_collection =
      on_database t (get_collection lib mongo t.database pkg)
  handle_request t pkg hash Transaction.server_create_lobby =
      on_server t (create_lobby lib t.server pkg hash)
  handle_request t pkg hash Transaction.server_ask_join_lobby =
      on_server t (ask_join_lobby lib t.server pkg hash)
  handle_request t pkg hash Transaction.server_confirm_lobby =
      on_server t (confirm_lobby lib t.server pkg hash)
  handle_request t pkg hash Transaction.server_exchange_prediction =
      on_server t (some (exchange_prediction lib t.server pkg hash))
  handle_request t pkg hash Transaction.server_upload_traversal_result =
      upload_traversal_result lib mongo t pkg hash
  handle_request t pkg hash other = no_handler lib other >>= λ reply. some (t, reply)

  -- `ServerTransactionHandler::Handle` with a server.
  unfoldable pub answer_to : System J D → DataPackage J → ℕ → Outcome J D
  unfolding handle_request
  answer_to t pkg hash =
      if is_outdated pkg
      then some (t, version_mismatch lib)
      else if failed pkg.error
      then some (t, create_error lib.json pkg.error)
      else handle_request t pkg hash pkg.transaction

  unfoldable pub handle : System J D → DataPackage J → ℕ → Option (System J D)
  unfolding answer_to
  handle t pkg hash = answer_to t pkg hash >>= λ r. some (reply_to lib hash r)

-- ===== src/Transactions/Kept.antt =====
-- What the operations of the server keep, every request keeps
-- (ServerSource/src/RequestHandler/ServerTransactionHandler.cpp).
use nat_data_collector.Prelude.{ℕ, Option, none, some, Bool-cases, inl, inr, After, ◌>>=◌}
use nat_data_collector.Errors.{failed}
use nat_data_collector.Types.{Transaction}
use nat_data_collector.Protocol.{DataPackage}
use nat_data_collector.Database.{Mongo}
use nat_data_collector.Server.{Server, Libs}
use nat_data_collector.System.{System}
use nat_data_collector.LobbyRequests.{create_lobby, ask_join_lobby, confirm_lobby}
use nat_data_collector.LobbyRequests.Kept.{
  IsKept, create_lobby-After, ask_join_lobby-After, confirm_lobby-After, exchange_prediction-After,
}
use nat_data_collector.TraversalUpload.Kept.{upload_traversal_result-After}
use nat_data_collector.DatabaseRequests.{
  Reply, insert_mongo, get_collection, get_version_data, get_information_data, get_scores,
}
use nat_data_collector.Transactions.{
  no_handler, on_server, on_database, handle_request, is_outdated, answer_to, handle, reply_to,
}

-- What holds of the state that a call leaves, if it gives one.
abbrev pub Holds : {A : Type 0} → (A → Type 0) → Option A → Type 0
Holds P none = Unit
Holds P (some a) = P a

module _ {J D : Type 0} (lib : Libs J) (mongo : Mongo D) (P : Server J → Type 0)
    (kept : IsKept lib P) where
  abbrev pub OnServer : System J D → Type 0
  OnServer t = P t.server

  on_server-After :
      (t : System J D) (o : Option (Server J × DataPackage J))
      → After P o
      → After OnServer (on_server t o)
  on_server-After t none h = tt
  on_server-After t (some r) h = h

  on_database-After :
      (t : System J D) (o : Reply J D) → P t.server → After OnServer (on_database t o)
  on_database-After t none h = tt
  on_database-After t (some r) h = h

  no_handler-After :
      (t : System J D) (o : Option (DataPackage J))
      → P t.server
      → After OnServer (o >>= λ reply. some (t, reply))
  no_handler-After t none p = tt
  no_handler-After t (some reply) p = p

  handle_request-After :
      (t : System J D) (pkg : DataPackage J) (hash : ℕ) (request : Transaction)
      → P t.server
      → After OnServer (handle_request lib mongo t pkg hash request)
  unfolding handle_request
  handle_request-After t pkg hash Transaction.server_create_lobby p =
      on_server-After t (create_lobby lib t.server pkg hash)
        (create_lobby-After lib P kept t.server pkg hash p)
  handle_request-After t pkg hash Transaction.server_ask_join_lobby p =
      on_server-After t (ask_join_lobby lib t.server pkg hash)
        (ask_join_lobby-After lib P kept t.server pkg hash p)
  handle_request-After t pkg hash Transaction.server_confirm_lobby p =
      on_server-After t (confirm_lobby lib t.server pkg hash)
        (confirm_lobby-After lib P kept t.server pkg hash p)
  handle_request-After t pkg hash Transaction.server_exchange_prediction p =
      exchange_prediction-After lib P kept t.server pkg hash p
  handle_request-After t pkg hash Transaction.server_upload_traversal_result p =
      upload_traversal_result-After lib mongo P kept t pkg hash p
  handle_request-After t pkg hash Transaction.server_insert_mongo p =
      on_database-After t (insert_mongo lib mongo t.database pkg) p
  handle_request-After t pkg hash Transaction.server_get_collection p =
      on_database-After t (get_collection lib mongo t.database pkg) p
  handle_request-After t pkg hash Transaction.server_get_version_data p =
      on_database-After t (get_version_data lib mongo t.database pkg) p
  handle_request-After t pkg hash Transaction.server_get_information_data p =
      on_database-After t (get_information_data lib mongo t.database pkg) p
  handle_request-After t pkg hash Transaction.server_get_scores p =
      on_database-After t (get_scores lib mongo t.database pkg) p
  handle_request-After t pkg hash other p = no_handler-After t (no_handler lib other) p

  pub answer_to-After :
      (t : System J D) (pkg : DataPackage J) (hash : ℕ)
      → P t.server
      → After OnServer (answer_to lib mongo t pkg hash)
  unfolding answer_to
  answer_to-After t pkg hash p = elim (Bool-cases (is_outdated pkg)) [
    | inl e ↦ rw e p
    | inr e ↦ elim (Bool-cases (failed pkg.error)) [
      | inl f ↦ rw (e, f) p
      | inr f ↦ rw (e, f) (handle_request-After t pkg hash pkg.transaction p)
    ]
  ]

  Holds-bind :
      (o : Option (System J D × DataPackage J)) (hash : ℕ)
      → After OnServer o
      → Holds OnServer (o >>= λ r. some (reply_to lib hash r))
  Holds-bind none hash h = tt
  Holds-bind (some r) hash h = kept.sent r.0.server r.1 hash h

  pub handle-Holds :
      (t : System J D) (pkg : DataPackage J) (hash : ℕ)
      → P t.server
      → Holds OnServer (handle lib mongo t pkg hash)
  unfolding handle
  handle-Holds t pkg hash p =
      Holds-bind (answer_to lib mongo t pkg hash) hash (answer_to-After t pkg hash p)

-- ===== src/Transactions/Returns.antt =====
-- Every request is answered (ServerSource/src/RequestHandler).
use Prim.Native.String.{len}
use nat_data_collector.Prelude.{
  ℕ, ◌%◌, leb, String, ◌≡◌, refl, true, Option, none, some, is_some, List, [], ◌∷◌, arith, ◌>>=◌,
}
use nat_data_collector.Errors.{failed}
use nat_data_collector.Types.{Transaction, transaction_code, MetaDataField, meta_data_to_string}
use nat_data_collector.Protocol.{DataPackage, start, start_object, add_meta, get_object}
use nat_data_collector.Protocol.Chains.{Readable, ReadableTexts, get_then}
use nat_data_collector.Data.{User}
use nat_data_collector.Database.{Mongo}
use nat_data_collector.DatabaseRequests.{Reply}
use nat_data_collector.DatabaseRequests.Reading.{HasDocuments, if-is_some}
use nat_data_collector.DatabaseRequests.Answers.{
  insert_mongo-is_some, get_collection-is_some, get_version_data-is_some,
  get_information_data-is_some, get_scores-is_some,
}
use nat_data_collector.Server.{Server, Libs}
use nat_data_collector.System.{System, Outcome}
use nat_data_collector.LobbyRequests.{
  create_lobby, ask_join_lobby, confirm_lobby, confirm_users, confirmed,
}
use nat_data_collector.TraversalUpload.{upload_traversal_result}
use nat_data_collector.Transactions.{
  literal_at, on_server, on_database, handle_request, is_outdated, answer_to, handle, reply_to,
}

module _ {J : Type 0} (lib : Libs J) where
  create_lobby-is_some :
      (s : Server J) (pkg : DataPackage J) (hash : ℕ)
      → ReadableTexts lib.json lib.text pkg.meta_data
      → is_some (create_lobby lib s pkg hash) ≡ true
  unfolding create_lobby
  create_lobby-is_some s pkg hash r =
      get_then lib.json lib.text (start lib.json pkg) MetaDataField.username _
        (r MetaDataField.username refl) λ w _. refl

  ask_join_lobby-is_some :
      (s : Server J) (pkg : DataPackage J) (hash : ℕ)
      → Readable lib.json lib.number pkg.meta_data MetaDataField.user_session_key
      → Readable lib.json lib.number pkg.meta_data MetaDataField.join_session_key
      → is_some (ask_join_lobby lib s pkg hash) ≡ true
  unfolding ask_join_lobby
  ask_join_lobby-is_some s pkg hash r q =
      get_then lib.json lib.number (start lib.json pkg) MetaDataField.user_session_key _ r
        λ a e. get_then lib.json lib.number a MetaDataField.join_session_key _ (rw e q) λ w _. refl

  confirmed-is_some :
      (s : Server J) (owner joined : User J) → is_some (confirmed lib s owner joined) ≡ true
  unfolding confirmed add_meta meta_data_to_string
  confirmed-is_some s owner joined = refl

  confirm_users-is_some :
      (s : Server J) (owner : User J) (joined : List (User J))
      → is_some (confirm_users lib s owner joined) ≡ true
  confirm_users-is_some s owner [] = refl
  confirm_users-is_some s owner (u ∷ []) = ground (arith, confirmed-is_some s owner u)
  confirm_users-is_some s owner (u ∷ w ∷ us) = refl

  confirm_lobby-is_some :
      (s : Server J) (pkg : DataPackage J) (hash : ℕ)
      → is_some (confirm_lobby lib s pkg hash) ≡ true
  unfolding confirm_lobby
  confirm_lobby-is_some s pkg hash =
      let (l, err) = get_object lib.lobby_codec pkg lib.lobby_codec.fresh in
      if-is_some (failed err) _ _ refl (confirm_users-is_some s l.owner l.joined)

module _ {J D : Type 0} (lib : Libs J) (mongo : Mongo D) where
  upload_traversal_result-is_some :
      (t : System J D) (pkg : DataPackage J) (hash : ℕ)
      → Readable lib.json lib.flag pkg.meta_data MetaDataField.success
      → ReadableTexts lib.json lib.text pkg.meta_data
      → is_some (upload_traversal_result lib mongo t pkg hash) ≡ true
  unfolding upload_traversal_result
  upload_traversal_result-is_some t pkg hash q r =
      get_then lib.json lib.flag (start_object lib.traversal_client pkg) MetaDataField.success _ q
        λ a e.
          get_then lib.json lib.text a MetaDataField.db_name _ (rw e (r MetaDataField.db_name refl))
            λ b e'.
              get_then lib.json lib.text b MetaDataField.coll_name _
                (rw (e', e) (r MetaDataField.coll_name refl))
                λ c e''.
                  get_then lib.json lib.text c MetaDataField.users_coll_name _
                    (rw (e'', e', e) (r MetaDataField.users_coll_name refl)) λ v _. refl

  on_server-is_some :
      (t : System J D) (o : Option (Server J × DataPackage J))
      → is_some o ≡ true
      → is_some (on_server t o) ≡ true
  on_server-is_some t none h = h
  on_server-is_some t (some r) h = refl

  on_database-is_some :
      (t : System J D) (o : Reply J D) → is_some o ≡ true → is_some (on_database t o) ≡ true
  on_database-is_some t none h = h
  on_database-is_some t (some r) h = refl

  answered-is_some :
      (o : Outcome J D) (hash : ℕ)
      → is_some o ≡ true
      → is_some (o >>= λ r. some (reply_to lib hash r)) ≡ true
  answered-is_some none hash h = h
  answered-is_some (some r) hash h = refl

  -- What a package and a database must be for its handlers not to throw: each field that
  -- is there can be converted to the type that is read, and a collection that is not counted as empty yields a document.
  pub record IsReadable (pkg : DataPackage J) (d : D) : Type 0 where
    pub texts : ReadableTexts lib.json lib.text pkg.meta_data
    pub user_key : Readable lib.json lib.number pkg.meta_data MetaDataField.user_session_key
    pub join_key : Readable lib.json lib.number pkg.meta_data MetaDataField.join_session_key
    pub success : Readable lib.json lib.flag pkg.meta_data MetaDataField.success
    pub documents : (db coll : String) → HasDocuments mongo d db coll

  -- The number of the transaction does not lead behind the literal of the answer to a transaction
  -- without a handler; that of an enumerator never does.
  abbrev pub IsInLiteral : Transaction → Type 0
  IsInLiteral t = leb (transaction_code t % 65536) (len "No handler implemented for type ") ≡ true

  handle_request-is_some :
      (t : System J D) (pkg : DataPackage J) (hash : ℕ) (request : Transaction)
      → IsReadable pkg t.database
      → IsInLiteral request
      → is_some (handle_request lib mongo t pkg hash request) ≡ true
  unfolding handle_request literal_at transaction_code
  handle_request-is_some t pkg hash Transaction.server_create_lobby r known =
      on_server-is_some t _ (create_lobby-is_some lib t.server pkg hash r.texts)
  handle_request-is_some t pkg hash Transaction.server_ask_join_lobby r known =
      on_server-is_some t _ (ask_join_lobby-is_some lib t.server pkg hash r.user_key r.join_key)
  handle_request-is_some t pkg hash Transaction.server_confirm_lobby r known =
      on_server-is_some t _ (confirm_lobby-is_some lib t.server pkg hash)
  handle_request-is_some t pkg hash Transaction.server_exchange_prediction r known = refl
  handle_request-is_some t pkg hash Transaction.server_upload_traversal_result r known =
      upload_traversal_result-is_some t pkg hash r.success r.texts
  handle_request-is_some t pkg hash Transaction.server_insert_mongo r known =
      on_database-is_some t _ (insert_mongo-is_some lib mongo t.database pkg r.texts)
  handle_request-is_some t pkg hash Transaction.server_get_collection r known =
      on_database-is_some t _ (get_collection-is_some lib mongo t.database pkg r.texts)
  handle_request-is_some t pkg hash Transaction.server_get_version_data r known =
      on_database-is_some t _
        (get_version_data-is_some lib mongo t.database pkg r.texts r.documents)
  handle_request-is_some t pkg hash Transaction.server_get_information_data r known =
      on_database-is_some t _
        (get_information_data-is_some lib mongo t.database pkg r.texts r.documents)
  handle_request-is_some t pkg hash Transaction.server_get_scores r known =
      on_database-is_some t _ (get_scores-is_some lib mongo t.database pkg r.texts)
  handle_request-is_some t pkg hash (Transaction.unknown n) r known = rw known refl
  handle_request-is_some t pkg hash _ r known = refl

  -- Whatever transaction a package names, of the enumeration or not, the dispatch completes, if all
  -- strings are UTF-8, so that the library can write every document as a text, the meta data fields
  -- that the package has can be converted to the types that the handlers read, no collection that is
  -- not counted as empty is without documents, and the lower 16 bits of the transaction's number do
  -- not lead behind the literal that the source adds them to, which those of no enumerator do.
  pub handle-is_some :
      (t : System J D) (pkg : DataPackage J) (hash : ℕ)
      → IsReadable pkg t.database
      → IsInLiteral pkg.transaction
      → is_some (handle lib mongo t pkg hash) ≡ true
  unfolding handle answer_to
  handle-is_some t pkg hash r known = answered-is_some (answer_to lib mongo t pkg hash) hash (
      if-is_some (is_outdated pkg) _ _ refl (
        if-is_some (failed pkg.error) _ _ refl
          (handle_request-is_some t pkg hash pkg.transaction r known)))

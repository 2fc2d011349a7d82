-- ===== src/DatabaseRequests.antt =====
-- The handlers of ServerSource/src/RequestHandler/MongoRequestHandler.h. `none` is an exception of
-- the JSON library, or the undefined read of the first element of an empty vector.
pub mod Reading
pub mod Answers
use text.Mathlib.Text.{◌==◌ as str_eq}
use nat_data_collector.Prelude.{
  ℕ, zero, suc, String, Bool, true, false, not, Option, none, some, List, [], ◌∷◌, ◌⊎◌, inl, inr,
  if◌then◌else◌, ◌>>=◌,
}
use nat_data_collector.Types.{ErrorType, Transaction, MetaDataField}
use nat_data_collector.Errors.{Error, failed, is}
use nat_data_collector.Json.{Json, Conversion, Codec}
use nat_data_collector.Protocol.{
  DataPackage, MetaVariant, app_version, empty_package, create_error, create_bare, create_data, get,
  start, start_object,
}
use nat_data_collector.Data.{
  VersionUpdate, InformationUpdate, ClientId, blank_version_update, blank_information_update,
}
use nat_data_collector.Database.{
  Mongo, Cursor, error_of, check_cursor, insert_element, update_element, find_elements,
  increment_score, cursor_to_jser_vector,
}
use nat_data_collector.Server.{Libs}

abbrev pub answer : Error
answer = record { error = ErrorType.answer; messages = [] }

abbrev pub Reply : Type 0 → Type 0 → Type 0
Reply J D = Option (D × DataPackage J)

-- What the visitor of the documents makes of them: an error, or what `use_documents` gives.
abbrev pub visited :
    {A T : Type 0} → (List T → Option (Error × A)) → A → Error ⊎ List T → Option (Error × A)
visited use_documents blank (inl err) = some (err, blank)
visited use_documents blank (inr ts) = use_documents ts

-- The callback of the handlers that take an empty collection for an answer.
abbrev pub unless_empty :
    {A T J : Type 0}
    → Codec J T
    → (List T → Option (Error × A))
    → A
    → Option Cursor
    → Option ℕ
    → Option (Error × A)
unless_empty codec use_documents blank cursor (some zero) = some (answer, blank)
unless_empty codec use_documents blank cursor _ =
    visited use_documents blank (cursor_to_jser_vector codec cursor)

abbrev pub check_latest : List VersionUpdate → Option (Error × VersionUpdate)
check_latest [] = none
check_latest (vu ∷ vus) =
    if not (str_eq vu.latest_version app_version)
    then some (
      error_of ("Latest release of app does not match server version" ∷ []),
      blank_version_update,
    )
    else some (answer, vu)

abbrev pub first_information : List InformationUpdate → Option (Error × InformationUpdate)
first_information [] = none
first_information (iu ∷ ius) = some (answer, iu)

abbrev pub all_scores : List ClientId → Option (Error × List ClientId)
all_scores ids = some (answer, ids)

-- `std::remove_if` with `erase`: the users who show their score.
unfoldable pub shown : List ClientId → List ClientId
shown [] = []
shown (c ∷ cs) = if not c.show_score then shown cs else c ∷ shown cs

module _ {J D : Type 0} (lib : Libs J) (mongo : Mongo D) where
  abbrev pub failure : D → Error → Reply J D
  failure d err = some (d, create_error lib.json err)

  abbrev pub answered : {A : Type 0} → Codec J A → Transaction → D → Error × A → Reply J D
  answered codec t d (err, a) =
      if is ErrorType.answer err then some (d, create_data lib.json codec a t) else failure d err

  -- SERVER_INSERT_MONGO.
  abbrev pub score_counted : D × Error → Reply J D
  score_counted (d, err) =
      if failed err
      then failure d err
      else some (d, create_bare lib.json Transaction.client_upload_success)

  abbrev pub file_written : String → String → String → D × Error → Reply J D
  file_written android_id db users (d, err) =
      if failed err
      then failure d err
      else score_counted
          (increment_score mongo lib.json lib.text lib.flag lib.number d android_id db users)

  abbrev pub insert_with :
      D
      → DataPackage J
      → MetaVariant J ((((Unit {0} × String) × String) × String) × String)
      → Reply J D
  insert_with d pkg v =
      if failed v.error
      then failure d v.error
      else file_written v.values.1 v.values.0.0.0.1 v.values.0.1
          (insert_element mongo d (lib.json.dump pkg.content) v.values.0.0.0.1 v.values.0.0.1)

  unfoldable pub insert_mongo : D → DataPackage J → Reply J D
  insert_mongo d pkg = get lib.json lib.text (start lib.json pkg) MetaDataField.db_name >>= λ a.
      get lib.json lib.text a MetaDataField.coll_name >>= λ b.
      get lib.json lib.text b MetaDataField.users_coll_name >>= λ c.
      get lib.json lib.text c MetaDataField.android_id >>= λ v. insert_with d pkg v

  -- SERVER_GET_COLLECTION: the first document of a collection. The answer has its transaction even
  -- when it carries an error.
  abbrev pub first_document : List String → Error × J
  first_document [] = (error_of ("Failed to get document from mongoc cursor" ∷ []), lib.json.null)
  first_document (text ∷ texts) = (answer, lib.json.parse text)

  abbrev pub checked_document : Cursor → Error × J
  checked_document cursor =
      if failed (check_cursor cursor.early_error)
      then (check_cursor cursor.early_error, lib.json.null)
      else first_document cursor.documents

  abbrev pub take_document : Option Cursor → Option ℕ → Error × J
  take_document (some cursor) (some (suc n)) = checked_document cursor
  take_document _ _ = (error_of ("Collection is empty" ∷ []), lib.json.null)

  abbrev pub collection_package : Error × J → DataPackage J
  collection_package (err, content) = record (empty_package lib.json) {
    content = content;
    error = err;
    transaction = Transaction.client_receive_collection;
  }

  abbrev pub collection_with : D → MetaVariant J ((Unit {0} × String) × String) → Reply J D
  collection_with d v =
      if failed v.error
      then failure d v.error
      else some (
        d,
        collection_package (
            find_elements mongo d "{}" v.values.0.1 v.values.1 (λ err. (err, lib.json.null))
              take_document),
      )

  unfoldable pub get_collection : D → DataPackage J → Reply J D
  get_collection d pkg = get lib.json lib.text (start lib.json pkg) MetaDataField.db_name >>= λ a.
      get lib.json lib.text a MetaDataField.coll_name >>= λ v. collection_with d v

  -- SERVER_GET_VERSION_DATA.
  abbrev pub version_with : D → MetaVariant J ((Unit {0} × String) × String) → Reply J D
  version_with d v =
      if failed v.error
      then failure d v.error
      else find_elements mongo d "{}" v.values.0.1 v.values.1
          (λ err. some (err, blank_version_update))
          (unless_empty lib.version_update check_latest blank_version_update)
        >>= answered lib.version_update Transaction.client_receive_version_data d

  unfoldable pub get_version_data : D → DataPackage J → Reply J D
  get_version_data d pkg = get lib.json lib.text (start lib.json pkg) MetaDataField.db_name >>= λ a.
      get lib.json lib.text a MetaDataField.coll_name >>= λ v. version_with d v

  -- SERVER_GET_INFORMATION_DATA.
  abbrev pub information_with :
      D → MetaVariant J (((Unit {0} × String) × String) × String) → Reply J D
  information_with d v =
      if failed v.error
      then failure d v.error
      else find_elements mongo d "{}" v.values.0.0.1 v.values.0.1
          (λ err. some (err, blank_information_update))
          (unless_empty lib.information_update first_information blank_information_update)
        >>= answered lib.information_update Transaction.client_receive_information_data d

  unfoldable pub get_information_data : D → DataPackage J → Reply J D
  get_information_data d pkg =
      get lib.json lib.text (start lib.json pkg) MetaDataField.db_name >>= λ a.
      get lib.json lib.text a MetaDataField.coll_name >>= λ b.
      get lib.json lib.text b MetaDataField.identifier >>= λ v. information_with d v

  -- SERVER_GET_SCORES: the user's own entry is written first.
  abbrev pub write_user : D → ClientId → String → String → D × Error
  write_user d id db users =
      let query = lib.json.put lib.json.null "android_id" (lib.text.to_json id.android_id) in
      let on_insert = lib.json.put lib.json.null "uploaded_samples" (lib.number.to_json 0) in
      let named = lib.json.put lib.json.null "username" (lib.text.to_json id.username) in
      let set =
        lib.json.put (lib.json.put named "show_score" (lib.flag.to_json id.show_score)) "android_id"
          (lib.text.to_json id.android_id) in
      let update = lib.json.put (lib.json.put lib.json.null "$setOnInsert" on_insert) "$set" set in
      let options = lib.json.put lib.json.null "upsert" (lib.flag.to_json true) in
      update_element mongo d (lib.json.dump query) (lib.json.dump update) (lib.json.dump options) db
        users

  abbrev pub scores_of : Option Cursor → Option ℕ → Option (Error × List ClientId)
  scores_of cursor n = visited all_scores [] (cursor_to_jser_vector lib.client_id cursor)

  abbrev pub scores_answer : D → Error × List ClientId → Reply J D
  scores_answer d (err, ids) =
      answered lib.scores Transaction.client_receive_scores d (err, shown ids)

  abbrev pub user_written : String → String → D × Error → Reply J D
  user_written db users (d, err) =
      if failed err
      then failure d err
      else find_elements mongo d "{}" db users (λ e. some (e, [])) scores_of >>= scores_answer d

  abbrev pub scores_with : D → MetaVariant J (((Unit {0} × ClientId) × String) × String) → Reply J D
  scores_with d v =
      if failed v.error
      then failure d v.error
      else user_written v.values.0.1 v.values.1
          (write_user d v.values.0.0.1 v.values.0.1 v.values.1)

  unfoldable pub get_scores : D → DataPackage J → Reply J D
  get_scores d pkg =
      get lib.json lib.text (start_object lib.client_id pkg) MetaDataField.db_name >>= λ a.
      get lib.json lib.text a MetaDataField.users_coll_name >>= λ v. scores_with d v

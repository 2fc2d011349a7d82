-- ===== src/Database.antt =====
-- Access to the Mongo database: ServerSource/src/Utils/DBUtils.h, and `WriteFileToDatabase` and
-- `IncrementScore` of ServerSource/src/RequestHandler/MongoRequestHandler.h. The driver (mongoc) is
-- a parameter over an abstract state `D` of the database.
use Prim.Native.String.{◌++◌ as append}
use nat_data_collector.Prelude.{
  ℕ, zero, suc, String, Bool, true, false, not, Option, none, some, List, [], ◌∷◌, ◌++◌, ◌⊎◌, inl,
  inr, if◌then◌else◌,
}
use nat_data_collector.Types.{ErrorType}
use nat_data_collector.Errors.{Error, no_error, failed}
use nat_data_collector.Json.{Json, Conversion, Codec}

-- A cursor: the error that `mongoc_cursor_error` reports at first, the documents that
-- `mongoc_cursor_next` yields, and the error reported after the last of them.
pub record Cursor : Type 0 where
  pub early_error : Option String
  pub documents : List String
  pub late_error : Option String

-- The driver's calls on a database and a collection, by name; a text is the driver's message.
-- `count` is `none` where `mongoc_collection_count_documents` gives -1.
pub record Mongo (D : Type 0) : Type 0 where
  pub context : D → Bool
  pub database : D → String → Bool
  pub collection : D → String → String → Bool
  pub bson_error : String → Option String
  pub insert_one : D → String → String → String → D × Option String
  pub update_one : D → String → String → String → String → String → D × Option String
  pub count : D → String → String → String → Option ℕ
  pub find : D → String → String → String → Cursor

abbrev pub error_of : List String → Error
error_of messages = record { error = ErrorType.error; messages = messages }

abbrev pub driver_error : String → String → Error
driver_error what message = error_of (what ∷ append "Error Message : " message ∷ [])

abbrev pub driver_result {ℓ} : {D : Type ℓ} → String → D × Option String → D × Error
driver_result what (d, none) = (d, no_error)
driver_result what (d, some message) = (d, driver_error what message)

-- `CheckMongocCursor`.
abbrev pub check_cursor : Option String → Error
check_cursor none = no_error
check_cursor (some message) =
    error_of (append "Mongodb cursor error when calling find : " message ∷ [])

module _ {D : Type 0} (mongo : Mongo D) where
  -- `OpenCollection`; the callback gives its outcome, the failures give `otherwise`.
  unfoldable pub open_collection : {X : Type 0} → D → String → String → (Error → X) → X → X
  open_collection d db coll otherwise callback =
      if not (mongo.context d)
      then otherwise (error_of ("Server failed to create Mongo Context" ∷ []))
      else if not (mongo.database d db)
      then otherwise (error_of (append "Server failed to find Mongo Database : " db ∷ []))
      else if not (mongo.collection d db coll)
      then otherwise (
          error_of (
            append "Server failed to find Mongo Collection " (append coll (append " in DB " db))
            ∷ []))
      else callback

  -- A text that the driver cannot read as BSON ends a call.
  abbrev pub with_bson : {X : Type 0} → String → String → (Error → X) → X → X
  with_bson what text otherwise rest = elim (mongo.bson_error text) [
    | none ↦ rest
    | some message ↦ otherwise (driver_error what message)
  ]

  abbrev pub in_collection : String → String → String → String
  in_collection what db coll = append what (append coll (append " in DB " db))

  -- `InsertElementToCollection`.
  unfoldable pub insert_element : D → String → String → String → D × Error
  unfolding open_collection
  insert_element d buffer db coll =
      open_collection d db coll (λ e. (d, e))
        (with_bson
          (in_collection "Failed to create Mongo Bson data to insert to Collection " db coll) buffer
          (λ e. (d, e))
          (driver_result (in_collection "Failed to insert Bson data to Mongo collection " db coll)
            (mongo.insert_one d db coll buffer)))

  -- `UpdateElementInCollection`.
  unfoldable pub update_element : D → String → String → String → String → String → D × Error
  unfolding open_collection
  update_element d query update options db coll =
      let unreadable =
        in_collection "Failed to create Mongo Bson update string to update collection " db coll in
      open_collection d db coll (λ e. (d, e))
        (with_bson (in_collection "Failed to create Mongo Bson query to update collection " db coll)
          query (λ e. (d, e))
          (with_bson unreadable update (λ e. (d, e))
            (with_bson unreadable options (λ e. (d, e))
              (driver_result (in_collection "Failed to update collection " db coll)
                (mongo.update_one d db coll query update options)))))

  -- `FindElementsInCollection`: an empty collection calls back without a cursor.
  abbrev pub with_cursor :
      {X : Type 0} → Cursor → Option ℕ → (Error → X) → (Option Cursor → Option ℕ → X) → X
  with_cursor cursor n otherwise callback =
      if failed (check_cursor cursor.early_error)
      then otherwise (check_cursor cursor.early_error)
      else callback (some cursor) n

  abbrev pub found :
      {X : Type 0} → Cursor → Option ℕ → (Error → X) → (Option Cursor → Option ℕ → X) → X
  found cursor (some zero) otherwise callback = callback none (some zero)
  found cursor (some (suc n)) otherwise callback =
      with_cursor cursor (some (suc n)) otherwise callback
  found cursor none otherwise callback = with_cursor cursor none otherwise callback

  unfoldable pub find_elements :
      {X : Type 0} → D → String → String → String → (Error → X) → (Option Cursor → Option ℕ → X) → X
  unfolding open_collection
  find_elements d query db coll otherwise callback = open_collection d db coll otherwise (
      with_bson (in_collection "Failed to create Mongo Bson data to insert to Collection " db coll)
        query otherwise
        (found (mongo.find d db coll query) (mongo.count d db coll query) otherwise callback))

  -- `IncrementScore`: one more sample for the user, who is added if there is no such user yet.
  unfoldable pub increment_score :
      {J : Type 0}
      → Json J
      → Conversion J String
      → Conversion J Bool
      → Conversion J ℕ
      → D
      → String
      → String
      → String
      → D × Error
  unfolding update_element
  increment_score json text flag number d android_id db coll =
      let id = text.to_json android_id in
      let query = json.put json.null "android_id" id in
      let on_insert =
        json.put (json.put json.null "username" (text.to_json "")) "show_score"
          (flag.to_json false) in
      let update =
        json.put
          (json.put (json.put json.null "$setOnInsert" on_insert) "$set"
            (json.put json.null "android_id" id))
          "$inc" (json.put json.null "uploaded_samples" (number.to_json 1)) in
      let options = json.put json.null "upsert" (flag.to_json true) in
      update_element d (json.dump query) (json.dump update) (json.dump options) db coll

-- `CursorToJserVector`: all documents of a cursor, or the first error.
module _ {J T : Type 0} (codec : Codec J T) where
  abbrev pub and_then : T × List String → Error ⊎ List T → Error ⊎ List T
  and_then (t, m ∷ ms) rest =
      inl (
        error_of ((m ∷ ms) ++ "Failed to deserialize Server Request : Insert Mongo Meta Data" ∷ []))
  and_then (t, []) (inl e) = inl e
  and_then (t, []) (inr ts) = inr (t ∷ ts)

  unfoldable pub read_documents : List String → Option String → Error ⊎ List T
  read_documents [] late = if failed (check_cursor late) then inl (check_cursor late) else inr []
  read_documents (text ∷ texts) late =
      and_then (codec.deserialize_text codec.fresh text) (read_documents texts late)

  unfoldable pub cursor_to_jser_vector : Option Cursor → Error ⊎ List T
  unfolding read_documents
  cursor_to_jser_vector none =
      inl (record {
        error = ErrorType.warning;
        messages = "Document Cursor is invalid or empty" ∷ [];
      })
  cursor_to_jser_vector (some cursor) =
      if failed (check_cursor cursor.early_error)
      then inl (check_cursor cursor.early_error)
      else read_documents cursor.documents cursor.late_error

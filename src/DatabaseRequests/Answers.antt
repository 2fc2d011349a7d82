-- ===== src/DatabaseRequests/Answers.antt =====
-- Every request to the handlers of ServerSource/src/RequestHandler/MongoRequestHandler.h is answered.
use nat_data_collector.Prelude.{
  String, ◌≡◌, ◌≢◌, refl, true, Option, none, some, is_some, List, [], ◌∷◌, arith,
}
use nat_data_collector.Errors.{Error, failed}
use nat_data_collector.Json.{Codec}
use nat_data_collector.Types.{Transaction, MetaDataField}
use nat_data_collector.Protocol.{DataPackage, MetaVariant, start, start_object}
use nat_data_collector.Protocol.Chains.{ReadableTexts, get_then}
use nat_data_collector.Data.{VersionUpdate, InformationUpdate}
use nat_data_collector.Database.{Mongo, Cursor, cursor_to_jser_vector}
use nat_data_collector.Server.{Libs}
use nat_data_collector.DatabaseRequests.Reading.{
  if-is_some, bind-is_some, find_elements-is_some, HasDocuments, unless_empty-is_some,
  visited-is_some,
}
use nat_data_collector.DatabaseRequests.{
  insert_mongo, get_collection, get_scores, user_written, write_user, get_version_data,
  version_with, get_information_data, information_with, answered, all_scores, shown, check_latest,
  first_information, visited,
}

check_latest-is_some : (ts : List VersionUpdate) → ts ≢ [] → is_some (check_latest ts) ≡ true
check_latest-is_some [] ne = absurd (ne refl)
check_latest-is_some (vu ∷ vus) ne = ground arith

first_information-is_some :
    (ts : List InformationUpdate) → ts ≢ [] → is_some (first_information ts) ≡ true
first_information-is_some [] ne = absurd (ne refl)
first_information-is_some (iu ∷ ius) ne = refl

module _ {J D : Type 0} (lib : Libs J) (mongo : Mongo D) where
  answered-is_some :
      {A : Type 0} (codec : Codec J A) (t : Transaction) (d : D) (r : Error × A)
      → is_some (answered lib mongo codec t d r) ≡ true
  answered-is_some codec t d (e, a) = ground arith

  scores-is_some :
      (cursor : Option Cursor)
      → is_some (visited all_scores [] (cursor_to_jser_vector lib.client_id cursor)) ≡ true
  scores-is_some cursor =
      visited-is_some lib.client_id all_scores [] (cursor_to_jser_vector lib.client_id cursor)
        (λ ts e. refl)

  version_with-is_some :
      (d : D) (v : MetaVariant J ((Unit {0} × String) × String))
      → HasDocuments mongo d v.values.0.1 v.values.1
      → is_some (version_with lib mongo d v) ≡ true
  version_with-is_some d v has = if-is_some (failed v.error) _ _ refl (
      bind-is_some _ _
        (find_elements-is_some mongo d "{}" v.values.0.1 v.values.1 _ _ (λ e. refl) refl
          (λ n.
            unless_empty-is_some lib.version_update check_latest _
              (mongo.find d v.values.0.1 v.values.1 "{}") _ check_latest-is_some (has n)))
        (answered-is_some lib.version_update Transaction.client_receive_version_data d))

  information_with-is_some :
      (d : D) (v : MetaVariant J (((Unit {0} × String) × String) × String))
      → HasDocuments mongo d v.values.0.0.1 v.values.0.1
      → is_some (information_with lib mongo d v) ≡ true
  information_with-is_some d v has = if-is_some (failed v.error) _ _ refl (
      bind-is_some _ _
        (find_elements-is_some mongo d "{}" v.values.0.0.1 v.values.0.1 _ _ (λ e. refl) refl
          (λ n.
            unless_empty-is_some lib.information_update first_information _
              (mongo.find d v.values.0.0.1 v.values.0.1 "{}") _ first_information-is_some (has n)))
        (answered-is_some lib.information_update Transaction.client_receive_information_data d))

  user_written-is_some :
      (db users : String) (r : D × Error) → is_some (user_written lib mongo db users r) ≡ true
  user_written-is_some db users (d, err) = if-is_some (failed err) _ _ refl (
      bind-is_some _ _
        (find_elements-is_some mongo d "{}" db users _ _ (λ e. refl) (scores-is_some none)
          (λ n. scores-is_some (some (mongo.find d db users "{}"))))
        (λ r. answered-is_some lib.scores Transaction.client_receive_scores d (r.0, shown r.1)))

  pub insert_mongo-is_some :
      (d : D) (pkg : DataPackage J)
      → ReadableTexts lib.json lib.text pkg.meta_data
      → is_some (insert_mongo lib mongo d pkg) ≡ true
  unfolding insert_mongo
  insert_mongo-is_some d pkg r =
      get_then lib.json lib.text (start lib.json pkg) MetaDataField.db_name _
        (r MetaDataField.db_name refl)
        λ a e.
          get_then lib.json lib.text a MetaDataField.coll_name _
            (rw e (r MetaDataField.coll_name refl))
            λ b e'.
              get_then lib.json lib.text b MetaDataField.users_coll_name _
                (rw (e', e) (r MetaDataField.users_coll_name refl))
                λ c e''.
                  get_then lib.json lib.text c MetaDataField.android_id _
                    (rw (e'', e', e) (r MetaDataField.android_id refl)) λ v _. ground arith

  pub get_collection-is_some :
      (d : D) (pkg : DataPackage J)
      → ReadableTexts lib.json lib.text pkg.meta_data
      → is_some (get_collection lib mongo d pkg) ≡ true
  unfolding get_collection
  get_collection-is_some d pkg r =
      get_then lib.json lib.text (start lib.json pkg) MetaDataField.db_name _
        (r MetaDataField.db_name refl)
        λ a e.
          get_then lib.json lib.text a MetaDataField.coll_name _
            (rw e (r MetaDataField.coll_name refl)) λ v _. ground arith

  pub get_version_data-is_some :
      (d : D) (pkg : DataPackage J)
      → ReadableTexts lib.json lib.text pkg.meta_data
      → ((db coll : String) → HasDocuments mongo d db coll)
      → is_some (get_version_data lib mongo d pkg) ≡ true
  unfolding get_version_data
  get_version_data-is_some d pkg r has =
      get_then lib.json lib.text (start lib.json pkg) MetaDataField.db_name _
        (r MetaDataField.db_name refl)
        λ a e.
          get_then lib.json lib.text a MetaDataField.coll_name _
            (rw e (r MetaDataField.coll_name refl))
            λ v _. version_with-is_some d v (has v.values.0.1 v.values.1)

  pub get_information_data-is_some :
      (d : D) (pkg : DataPackage J)
      → ReadableTexts lib.json lib.text pkg.meta_data
      → ((db coll : String) → HasDocuments mongo d db coll)
      → is_some (get_information_data lib mongo d pkg) ≡ true
  unfolding get_information_data
  get_information_data-is_some d pkg r has =
      get_then lib.json lib.text (start lib.json pkg) MetaDataField.db_name _
        (r MetaDataField.db_name refl)
        λ a e.
          get_then lib.json lib.text a MetaDataField.coll_name _
            (rw e (r MetaDataField.coll_name refl))
            λ b e'.
              get_then lib.json lib.text b MetaDataField.identifier _
                (rw (e', e) (r MetaDataField.identifier refl))
                λ v _. information_with-is_some d v (has v.values.0.0.1 v.values.0.1)

  pub get_scores-is_some :
      (d : D) (pkg : DataPackage J)
      → ReadableTexts lib.json lib.text pkg.meta_data
      → is_some (get_scores lib mongo d pkg) ≡ true
  unfolding get_scores
  get_scores-is_some d pkg r =
      get_then lib.json lib.text (start_object lib.client_id pkg) MetaDataField.db_name _
        (r MetaDataField.db_name refl)
        λ a e.
          get_then lib.json lib.text a MetaDataField.users_coll_name _
            (rw e (r MetaDataField.users_coll_name refl))
            λ v _. if-is_some (failed v.error) _ _ refl (
              user_written-is_some v.values.0.1 v.values.1
                (write_user lib mongo d v.values.0.0.1 v.values.0.1 v.values.1))

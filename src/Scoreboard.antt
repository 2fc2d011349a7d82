-- ===== src/Scoreboard.antt =====
-- The scores of all users: AndroidSource/src/Components/Scoreboard.cpp and .h. `none` is an exception
-- of nlohmann::json, or of the look-up of a key. Lines for the log are left out; the file that a
-- request for the scores writes first is UserData/Disc.antt's, and is left out as well.
pub mod Scores
use text.Mathlib.Text.{◌==◌ as str_eq}
use nat_data_collector.Prelude.{
  ℕ, String, Bool, true, Option, none, some, List, [], ◌∷◌, leb, if◌then◌else◌, ◌>>=◌, ◌||◌,
}
use nat_data_collector.Types.{Transaction, MetaDataField}
use nat_data_collector.Errors.{Error, failed}
use nat_data_collector.Json.{Codec}
use nat_data_collector.Protocol.{DataPackage, create_data, get_object}
use nat_data_collector.Data.{ClientId}
use nat_data_collector.AppConfig.{AppConfig}
use nat_data_collector.Model.{Model}
use nat_data_collector.UserData.{Information, validate_username}
use nat_data_collector.Client.{Client, Ends, valid, connect_async, disconnect}
use nat_data_collector.Client.Requests.{Formats, server_transaction_async, add_text}

pub record Scoreboard : Type 0 where
  pub scores : List ClientId
  pub client : Client

pub record Codecs (J : Type 0) : Type 0 where
  pub formats : Formats J
  pub client_id : Codec J ClientId
  pub scores : Codec J (List ClientId)

-- `std::sort` by the number of samples, the larger in front; the order of users with the same number
-- is left open in the source, and is the order of arrival here.
unfoldable pub insert_score : ClientId → List ClientId → List ClientId
insert_score a [] = a ∷ []
insert_score a (b ∷ bs) =
    let rest = insert_score a bs in
    if leb b.uploaded_samples a.uploaded_samples then a ∷ b ∷ bs else b ∷ rest

unfoldable pub sort_scores : List ClientId → List ClientId
unfolding insert_score
sort_scores [] = []
sort_scores (a ∷ rest) = insert_score a (sort_scores rest)

-- `Shutdown`; `ends` is what the tasks of the client end with.
unfoldable pub shutdown : Scoreboard → Ends → Scoreboard
unfolding disconnect
shutdown s ends = record s { client = (disconnect s.client ends).1 }

abbrev pub got_scores : Scoreboard → Ends → List ClientId × Error → Scoreboard
got_scores s ends (scores, err) =
    if failed err
    then record s { scores = scores }
    else shutdown (record s { scores = sort_scores scores }) ends

module _ {J : Type 0} (codecs : Codecs J) where
  -- The request for the scores, with what is known of the user.
  abbrev pub scores_request : Model → Information → Option (DataPackage J)
  scores_request model info =
      add_text codecs.formats
        (create_data codecs.formats.wire.json codecs.client_id
          (record {
            android_id = model.client_meta_data.android_id;
            username = info.username;
            show_score = info.show_score;
            uploaded_samples = 0;
          })
          Transaction.server_get_scores)
        MetaDataField.db_name model.app_config.mongo.db_name
      >>= λ pkg.
          add_text codecs.formats pkg MetaDataField.users_coll_name
            model.app_config.mongo.coll_users_name

  abbrev pub on_transaction :
      Transaction → Model → Information → Ends → DataPackage J → Scoreboard → Option Scoreboard
  on_transaction Transaction.client_connected model info ends pkg s =
      scores_request model info >>= λ request.
      some (record s { client = (server_transaction_async codecs.formats s.client request).1 })
  on_transaction Transaction.client_receive_scores model info ends pkg s =
      some (got_scores s ends (get_object codecs.scores pkg s.scores))
  on_transaction _ model info ends pkg s = some s

  -- `HandleTransaction`: an error of a request or of the scores changes nothing else.
  unfoldable pub handle_transaction :
      Model → Information → Ends → DataPackage J → Scoreboard → Option Scoreboard
  unfolding shutdown sort_scores get_object server_transaction_async create_data
  handle_transaction model info ends pkg s = on_transaction pkg.transaction model info ends pkg s

-- `RequestScores`: the client connects if it does not run, the device is known and the name is valid.
unfoldable pub request_scores : Model → Information → Ends → Scoreboard → Scoreboard
unfolding validate_username connect_async
request_scores model info ends s =
    if valid s.client.rw_future
    then s
    else if str_eq model.client_meta_data.android_id "" || failed (validate_username info)
    then s
    else record s { client = (connect_async s.client ends).1 }

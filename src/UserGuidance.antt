-- ===== src/UserGuidance.antt =====
-- The first global state of the app: AndroidSource/src/Components/GlobUserGuidance.cpp and .h. The state
-- is the model with what this part keeps and uses; `rest` is the rest of the app, which callbacks
-- may change. `none` is an exception of nlohmann::json, or of the look-up of a key. Lines for the log
-- are left out.
pub mod Quiet
pub mod Acts
use text.Mathlib.Text.{◌==◌ as str_eq}
use nat_data_collector.Prelude.{
  ℕ, String, Bool, true, false, not, ◌&&◌, Option, none, some, List, [], ◌∷◌, is_empty,
  if◌then◌else◌, ◌>>=◌,
}
use nat_data_collector.Types.{Transaction, MetaDataField, NatType, is_random_sym}
use nat_data_collector.Errors.{Error, no_error, failed}
use nat_data_collector.Json.{Conversion, Codec}
use nat_data_collector.Protocol.{
  DataPackage, MetaVariant, app_version, create_error, create_bare, get_object, get, start,
}
use nat_data_collector.Data.{
  VersionUpdate, InformationUpdate, IpMetaData, blank_ip_meta_data, blank_version_update,
  blank_information_update,
}
use nat_data_collector.AppConfig.{AppConfig, blank_app_config, Asset, read_asset_file}
use nat_data_collector.UserData.{UserData, Files, Writing, Storage, write_to_disc}
use nat_data_collector.Model.{
  Model, PopUpState, Argument, set_client_meta_data, set_client_nat_type, set_client_android_id,
  push_pop_up_state, try_switch_glob_state,
}
use nat_data_collector.Client.{Client, Ends, new_client, connect_async, disconnect}
use nat_data_collector.Client.Requests.{Formats, server_transaction_async, add_text}
use nat_data_collector.Client.Tasks.{prepare_collect_task_async, prepare_http_task_async}
use nat_data_collector.Client.Publishing.{marked}
use nat_data_collector.Client.Idle.{conclude}

-- `UserGuidanceStates`.
pub data Step : Type 0 where
  disconnected connected_no_interrupt wait_for_ui : Step

pub record UserGuidance : Type 0 where
  pub current : Step
  pub client : Client
  pub version_update_info : VersionUpdate
  pub information_update_info : InformationUpdate

abbrev pub new_user_guidance : UserGuidance
new_user_guidance = record {
  current = disconnected;
  client = new_client;
  version_update_info = blank_version_update;
  information_update_info = blank_information_update;
}

-- `max_delta` is the number of the classifier, and `log_buffer_size` that of the log, both of which
-- the configuration sets.
pub record App (S : Type 0) : Type 0 where
  pub guidance : UserGuidance
  pub user_data : UserData
  pub files : Files
  pub max_delta : ℕ
  pub log_buffer_size : ℕ
  pub rest : S

pub record Codecs (J : Type 0) : Type 0 where
  pub formats : Formats J
  pub version : Codec J VersionUpdate
  pub information : Codec J InformationUpdate
  pub meta_data : Codec J IpMetaData
  pub config : Codec J AppConfig
  pub nat_type : Conversion J NatType
  pub storage : Storage J

module _ {S : Type 0} where
  abbrev pub set_guidance : UserGuidance → Model × App S → Model × App S
  set_guidance g (m, a) = (m, record a { guidance = g })

  abbrev pub set_step : Step → Model × App S → Model × App S
  set_step s (m, a) = (m, record a { guidance = record a.guidance { current = s } })

  abbrev pub set_client : Client → Model × App S → Model × App S
  set_client c (m, a) = (m, record a { guidance = record a.guidance { client = c } })

  abbrev pub put_client : Error × Client → Model × App S → Error × (Model × App S)
  put_client (err, c) w = (err, set_client c w)

  -- `Shutdown`; `ends` is what the tasks of the client end with, and the package is only logged.
  unfoldable pub shutdown : Ends → Model × App S → Model × App S
  unfolding disconnect
  shutdown ends (m, a) =
      set_step disconnected (set_client (disconnect a.guidance.client ends).1 (m, a))

  -- `SetAndroidID`.
  abbrev pub set_android_id : Option String → Model × App S → Model × App S
  set_android_id none (m, a) = (set_client_android_id m "Not Identified", a)
  set_android_id (some id) (m, a) = (set_client_android_id m id, a)

  abbrev pub put_config : AppConfig × Error → Model × App S → Model × App S
  put_config (config, err) (m, a) = if failed err then (m, a) else (
    record m { app_config = config },
    record a {
      log_buffer_size = config.app.max_log_lines;
      max_delta = config.nat_ident.max_delta_progressing_nat;
    },
  )

module _ {J S : Type 0} (codecs : Codecs J) where
  -- `SetAppConfig`.
  unfoldable pub set_app_config : Asset → Model × App S → Model × App S
  unfolding read_asset_file get_object
  set_app_config asset w =
      put_config
        (get_object codecs.config (read_asset_file codecs.formats.wire.json asset) blank_app_config)
        w

  abbrev pub write_user_data : Writing → UserData → Model × App S → Model × App S
  write_user_data writing user (m, a) = (
    m,
    record a { user_data = user; files = (write_to_disc codecs.storage user writing a.files).1 },
  )

  -- `OnClosePopUpWindow`.
  unfoldable pub on_close_pop_up_window : Bool → Writing → Model × App S → Model × App S
  unfolding write_to_disc
  on_close_pop_up_window ignored writing (m, a) =
      write_user_data writing
        (record a.user_data { info = record a.user_data.info { ignore_pop_up = ignored } }) (m, a)

  -- `OnCloseInfoUpdateWindow`.
  unfoldable pub on_close_info_update_window : Bool → Writing → Model × App S → Model × App S
  unfolding write_to_disc
  on_close_info_update_window ignored writing (m, a) =
      if ignored
      then write_user_data writing
          (record a.user_data {
            info = record a.user_data.info {
              information_identifier = a.guidance.information_update_info.identifier;
            };
          })
          (m, a)
      else (m, a)

-- `OnRecalcNAT`.
abbrev pub reconnected : {S : Type 0} → Ends → Error × Client → Model × App S → Model × App S
reconnected ends (err, c) w =
    let connected = set_step connected_no_interrupt (set_client c w) in
    if failed err then shutdown ends connected else connected

abbrev pub recalc_at : {S : Type 0} → Step → Ends → Model × App S → Model × App S
recalc_at wait_for_ui ends w = reconnected ends (connect_async w.1.guidance.client ends) w
recalc_at _ ends w = w

unfoldable pub on_recalc_nat : {S : Type 0} → Ends → Model × App S → Model × App S
unfolding shutdown connect_async
on_recalc_nat ends w = recalc_at w.1.guidance.current ends w

module _ {J S : Type 0} (codecs : Codecs J) (call : ℕ → Argument J → Model × App S → Model × App S)
    (ends : Ends) where
  abbrev pub show_main_pop_up : Model × App S → Model × App S
  show_main_pop_up w =
      if not w.1.user_data.info.ignore_pop_up then push_pop_up_state call PopUpState.pop_up w else w

  -- The end of `StartGlobState`: whatever `ConnectAsync` says.
  abbrev pub connect : Model × App S → Model × App S
  connect w =
      set_step connected_no_interrupt (set_client (connect_async w.1.guidance.client ends).1 w)

  abbrev pub start_at : Step → Asset → Option String → Model × App S → Model × App S
  start_at disconnected asset id w =
      connect (show_main_pop_up (set_android_id id (set_app_config codecs asset w)))
  start_at _ asset id w = w

  -- `StartGlobState`.
  unfoldable pub start_glob_state : Asset → Option String → Model × App S → Model × App S
  unfolding set_app_config connect_async push_pop_up_state set_client_android_id
  start_glob_state asset id w = start_at w.1.guidance.current asset id w

  -- A request that is made of the database and the names in the configuration.
  abbrev pub database_request :
      Transaction → String → String → MetaDataField → String → Option (DataPackage J)
  database_request t db coll field text =
      add_text codecs.formats (create_bare codecs.formats.wire.json t) MetaDataField.db_name db
      >>= λ p. add_text codecs.formats p MetaDataField.coll_name coll >>= λ q.
          add_text codecs.formats q field text

  abbrev pub ask_server : Option (DataPackage J) → Model × App S → Option (Error × (Model × App S))
  ask_server request w = request >>= λ pkg.
      some (put_client (server_transaction_async codecs.formats w.1.guidance.client pkg) w)

  -- The cases of `OnNatClientEvent`, each with its error.
  abbrev pub on_connected : Model × App S → Option (Error × (Model × App S))
  on_connected w =
      ask_server
        (database_request Transaction.server_get_version_data w.0.app_config.mongo.db_name
          w.0.app_config.mongo.coll_version_name MetaDataField.curr_version w.0.app_config.version)
        w

  abbrev pub notify_if : Bool → PopUpState → Model × App S → Model × App S
  notify_if b p w = if b then push_pop_up_state call p w else w

  abbrev pub on_version : VersionUpdate × Error → Model × App S → Option (Error × (Model × App S))
  on_version (info, err) w =
      let config = w.0.app_config in
      let known = set_guidance (record w.1.guidance { version_update_info = info }) w in
      let outdated =
        not (str_eq info.latest_version "") && not (str_eq app_version info.latest_version) in
      let shown = notify_if outdated PopUpState.version_update_window known in
      if failed err
      then some (err, known)
      else ask_server
          (database_request Transaction.server_get_information_data config.mongo.db_name
            config.mongo.coll_information_name MetaDataField.identifier
            shown.1.user_data.info.information_identifier)
          shown

  abbrev pub on_information :
      InformationUpdate × Error → Model × App S → Option (Error × (Model × App S))
  on_information (info, err) w =
      let known = set_guidance (record w.1.guidance { information_update_info = info }) w in
      let fresh =
        not (str_eq info.identifier "")
        && not (str_eq w.1.user_data.info.information_identifier info.identifier) in
      let shown = notify_if fresh PopUpState.information_update_window known in
      if failed err
      then some (err, known)
      else some (put_client (prepare_http_task_async shown.1.guidance.client) shown)

  abbrev pub on_traceroute : IpMetaData × Error → Model × App S → Option (Error × (Model × App S))
  on_traceroute (info, err) (m, a) =
      if failed err
      then some (err, (m, a))
      else some (
          put_client (prepare_collect_task_async a.guidance.client)
            (set_client_meta_data m info, a))

  -- The device may have to be behind a random symmetric NAT.
  abbrev pub with_nat_type : NatType → Model × App S → Model × App S
  with_nat_type nat_type (m, a) =
      let known : Model × App S = (set_client_nat_type m nat_type, a) in
      if m.app_config.app.random_nat_required && not (is_random_sym nat_type)
      then shutdown ends (push_pop_up_state call PopUpState.nat_info_window known)
      else known

  abbrev pub on_nat_type :
      MetaVariant J (Unit {0} × NatType) → Model × App S → Option (Error × (Model × App S))
  on_nat_type result w =
      if failed result.error
      then some (result.error, w)
      else some (no_error, set_step wait_for_ui (with_nat_type result.values.1 w))

  abbrev pub on_transaction :
      Transaction → DataPackage J → Model × App S → Option (Error × (Model × App S))
  on_transaction Transaction.client_connected pkg w = on_connected w
  on_transaction Transaction.client_receive_version_data pkg w =
      on_version (get_object codecs.version pkg w.1.guidance.version_update_info) w
  on_transaction Transaction.client_receive_information_data pkg w =
      on_information (get_object codecs.information pkg w.1.guidance.information_update_info) w
  on_transaction Transaction.client_receive_traceroute pkg w =
      on_traceroute (get_object codecs.meta_data pkg blank_ip_meta_data) w
  on_transaction Transaction.client_receive_nat_type pkg w =
      get codecs.formats.wire.json codecs.nat_type (start codecs.formats.wire.json pkg)
        MetaDataField.nat_type
      >>= λ result. on_nat_type result w
  on_transaction _ pkg w = some (no_error, w)

  -- `OnNatClientEvent`.
  unfoldable pub on_nat_client_event : DataPackage J → Model × App S → Option (Model × App S)
  unfolding shutdown get_object get server_transaction_async prepare_http_task_async
      prepare_collect_task_async push_pop_up_state set_client_nat_type set_client_meta_data
  on_nat_client_event pkg w = conclude (λ err. shutdown ends) (on_transaction pkg.transaction pkg w)

  -- What the subscriptions of `Activate` do with a package that the client publishes.
  abbrev pub on_published : Transaction → DataPackage J → Model × App S → Option (Model × App S)
  on_published Transaction.error pkg w = some (shutdown ends w)
  on_published _ pkg w = on_nat_client_event pkg w

  unfoldable pub on_packages : List (DataPackage J) → Model × App S → Option (Model × App S)
  unfolding on_nat_client_event
  on_packages [] w = some w
  on_packages (pkg ∷ pkgs) w =
      let p = marked pkg in on_published p.transaction p w >>= λ u. on_packages pkgs u

  -- `UpdateGlobState` after `client.Update`.
  abbrev pub after_update : Step → Model × App S → Model × App S
  after_update disconnected w = (try_switch_glob_state call w).1
  after_update wait_for_ui w = if is_empty w.0.popup_queue then shutdown ends w else w
  after_update connected_no_interrupt w = w

  -- `UpdateGlobState`, with the packages that `client.Update` publishes.
  unfoldable pub update_glob_state : List (DataPackage J) → Model × App S → Option (Model × App S)
  unfolding on_packages try_switch_glob_state
  update_glob_state pkgs w = on_packages pkgs w >>= λ u. some (after_update u.1.guidance.current u)

-- ===== src/Traverse.antt =====
-- The global state in which two devices traverse their NATs: AndroidSource/src/Components/GlobTraverse.cpp
-- and .h. The state is the model with what this part keeps and uses; `rest` is the rest of the app,
-- which callbacks may change. `none` is an exception of nlohmann::json, of the look-up of a key, a
-- division by 0, a read behind a vector, or a loop that does not end within its fuel. Lines for the
-- log are left out.
pub mod Run
pub mod Popups
pub mod Plan
pub mod Quiet
pub mod Acts
use nat_data_collector.Prelude.{
  ℕ, zero, suc, ◌+◌, ◌-◌, ◌*◌, ◌/◌, ◌%◌, String, Bool, true, false, not, ◌&&◌, ◌||◌, Option, none,
  some, List, [], ◌∷◌, ltb, ◌==◌, length, is_empty, if◌then◌else◌, ◌>>=◌,
}
use nat_data_collector.Prelude.OrderedMap.{contains}
use nat_data_collector.Types.{Transaction, MetaDataField, NatType, ConnectionType, is_random_sym}
use nat_data_collector.Errors.{Error, no_error, failed}
use nat_data_collector.Json.{Conversion, Codec}
use nat_data_collector.Protocol.{
  DataPackage, MetaVariant, create_bare, create_data, add_meta, get_object, get, start,
  start_object,
}
use nat_data_collector.Data.{
  Address, blank_address, IpMetaData, blank_ip_meta_data, MultiAddressVector, TraversalClient, User,
  Lobby, AllLobbies, user, lobby,
}
use nat_data_collector.UserData.{
  UserData, Files, Writing, Storage, validate_username, write_to_disc,
}
use nat_data_collector.Model.{
  Model, GlobalState, TabState, PopUpState, Argument, set_client_meta_data, set_client_nat_type,
  push_pop_up_state, pop_pop_up_state, set_tab_state, set_next_global_state, try_switch_glob_state,
  tab_code,
}
use nat_data_collector.Client.{Client, Ends, new_client, failure, connect_async, disconnect}
use nat_data_collector.Client.Requests.{
  Formats, server_transaction_async, register_user_async, ask_join_lobby_async, confirm_lobby_async,
  exchange_prediction_async, find_user_session, add_text,
}
use nat_data_collector.Client.Tasks.{
  prepare_collect_task_async, prepare_http_task_async, prepare_traverse_task_async,
  create_timer_async,
}
use nat_data_collector.Client.Publishing.{marked}
use nat_data_collector.Client.Idle.{conclude}
use nat_data_collector.Collect.{Settings, Stage}
use nat_data_collector.CollectPlan.{CollectingConfig, Objects, Ports}
use nat_data_collector.CollectPlan.Stages.{calculate_collect_stages}
use nat_data_collector.CollectSamples.{blank_config}
use nat_data_collector.Predictor.{
  Prediction, predicted, undecided, undefined, predict_cone_nat, predict_random_nat,
}
use nat_data_collector.Holepunch.{Config, Result, blank_result}

-- `TraverseStep`.
pub data Step : Type 0 where
  disconnected connected join_lobby confirm_lobby no_interrupt : Step

-- `JoinLobbyInfo`.
pub record JoinLobbyInfo (J : Type 0) : Type 0 where
  pub other_session : ℕ
  pub merged_lobby : Lobby J

pub record Traverse (J : Type 0) : Type 0 where
  pub all_lobbies : AllLobbies J
  pub join_info : JoinLobbyInfo J
  pub start_traversal_timestamp : ℕ
  pub current : Step
  pub client : Client
  pub config : CollectingConfig J
  pub rnat_trav_stage : Stage Ports
  pub analyze_results : MultiAddressVector
  pub cone_local_port : ℕ
  pub traverse_config : Config

-- `UDPCollectTask::Stage()` and `UDPHolepunching::Config()`.
abbrev pub blank_stage : Stage Ports
blank_stage = record {
  settings = record {
    echo_server_addr = "";
    echo_server_start_port = 0;
    echo_server_num_services = 0;
    local_port = 0;
    sample_size = 0;
    sample_rate_ms = 0;
    close_socket_early = true;
  };
  cond = none;
  start_stage_cb = none;
}

abbrev pub blank_traverse_config : Config
blank_traverse_config = record {
  target_client = blank_address;
  traversal_attempts = 0;
  traversal_rate = 0;
  local_port = 0;
  deadline_duration_ms = 0;
  keep_alive_rate_ms = 0;
}

pub record App (J S : Type 0) : Type 0 where
  pub traverse : Traverse J
  pub user_data : UserData
  pub files : Files
  pub rest : S

pub record Codecs (J : Type 0) : Type 0 where
  pub formats : Formats J
  pub objects : Objects J
  pub storage : Storage J
  pub meta_data : Codec J IpMetaData
  pub config : Codec J (CollectingConfig J)
  pub ports : Codec J MultiAddressVector
  pub lobbies : Codec J (AllLobbies J)
  pub result : Codec J Result
  pub traversal_client : Codec J TraversalClient
  pub nat_type : Conversion J NatType
  pub flag : Conversion J Bool

-- What the surroundings tell a handler: the clock and the text of a time, the connection of the
-- device, RAND_MAX and the random numbers with the fuel for drawing them, the fuel for closing
-- pop-ups, how the user's file is written, and what the tasks of the client end with.
pub record Surroundings : Type 0 where
  pub now : ℕ
  pub time_stamp : ℕ → String
  pub connect_type : ConnectionType
  pub rand_max : ℕ
  pub random : ℕ → ℕ
  pub draws : ℕ
  pub pops : ℕ
  pub writing : Writing
  pub ends : Ends

module _ {J S : Type 0} where
  abbrev pub set_traverse : Traverse J → Model × App J S → Model × App J S
  set_traverse t (m, a) = (m, record a { traverse = t })

  abbrev pub set_step : Step → Model × App J S → Model × App J S
  set_step s (m, a) = (m, record a { traverse = record a.traverse { current = s } })

  abbrev pub set_client : Client → Model × App J S → Model × App J S
  set_client c (m, a) = (m, record a { traverse = record a.traverse { client = c } })

  abbrev pub put_client : Error × Client → Model × App J S → Error × (Model × App J S)
  put_client (err, c) w = (err, set_client c w)

abbrev pub is_disconnected : Step → Bool
is_disconnected disconnected = true
is_disconnected _ = false

-- The time stamp is that of the epoch.
abbrev pub blank_traverse : {J : Type 0} → Codecs J → Client → Traverse J
blank_traverse codecs c = record {
  all_lobbies = [];
  join_info = record {
    other_session = 0;
    merged_lobby = lobby (user codecs.formats.wire.json 0 "") [];
  };
  start_traversal_timestamp = 0;
  current = disconnected;
  client = c;
  config = blank_config;
  rnat_trav_stage = blank_stage;
  analyze_results = record { stages = [] };
  cone_local_port = 0;
  traverse_config = blank_traverse_config;
}

module _ {J S : Type 0} (codecs : Codecs J)
    (call : ℕ → Argument J → Model × App J S → Model × App J S) (env : Surroundings) where
  -- `Shutdown`; the package is only logged.
  unfoldable pub shutdown : Model × App J S → Model × App J S
  unfolding disconnect set_next_global_state
  shutdown (m, a) =
      set_next_global_state call GlobalState.idle
        (set_traverse (blank_traverse codecs (disconnect a.traverse.client env.ends).1) (m, a))

  -- `OnFrameTime`.
  unfoldable pub on_frame_time : ℕ → Model × App J S → Model × App J S
  unfolding shutdown
  on_frame_time frame_time_ms w =
      if ltb 10000 frame_time_ms && not (is_disconnected w.1.traverse.current)
      then shutdown w
      else w

  abbrev pub connect : Model × App J S → Error × (Model × App J S)
  connect (m, a) =
      put_client (connect_async a.traverse.client env.ends)
        (m, record a { files = (write_to_disc codecs.storage a.user_data env.writing a.files).1 })

  -- `StartDraw`.
  abbrev pub entered : Error × (Model × App J S) → Model × App J S
  entered (err, w) =
      if failed err
      then shutdown w
      else set_tab_state call TabState.traversal (set_step connected w)

  unfoldable pub start_draw : Model × App J S → Model × App J S
  unfolding shutdown connect_async write_to_disc validate_username set_tab_state
  start_draw w =
      if failed (validate_username w.1.user_data.info) then shutdown w else entered (connect w)

  -- `EndDraw`.
  abbrev pub leave_tab : Model × App J S → Model × App J S
  leave_tab w =
      if tab_code w.0.current_tab_state == tab_code TabState.traversal
      then set_tab_state call TabState.log w
      else w

  unfoldable pub end_draw : Model × App J S → Model × App J S
  unfolding shutdown set_tab_state
  end_draw w = leave_tab (shutdown w)

  -- `JoinLobby`.
  abbrev pub joining : ℕ → Error × (Model × App J S) → Model × App J S
  joining join_session (err, w) =
      let shown =
        push_pop_up_state call PopUpState.join_lobby_pop_up_window (set_step join_lobby w) in
      if failed err
      then shutdown w
      else set_traverse
          (record shown.1.traverse {
            join_info = record shown.1.traverse.join_info { other_session = join_session };
          })
          shown

  abbrev pub join_as : Option ℕ → ℕ → Model × App J S → Option (Model × App J S)
  join_as none join_session w = some (shutdown w)
  join_as (some user_session) join_session w =
      ask_join_lobby_async codecs.formats w.1.traverse.client join_session user_session >>= λ r.
      some (joining join_session (put_client r w))

  abbrev pub join_at : Step → ℕ → Model × App J S → Option (Model × App J S)
  join_at connected join_session w =
      join_as (find_user_session w.1.user_data.info.username w.1.traverse.all_lobbies) join_session
        w
  join_at _ join_session w = some w

  unfoldable pub join : ℕ → Model × App J S → Option (Model × App J S)
  unfolding shutdown ask_join_lobby_async find_user_session push_pop_up_state
  join join_session w = join_at w.1.traverse.current join_session w

  -- `ConfirmLobbyAsync` with the check of its error.
  abbrev pub confirm : Lobby J → Model × App J S → Error × (Model × App J S)
  confirm l w = put_client (confirm_lobby_async codecs.formats w.1.traverse.client l) w

  abbrev pub unless_failed : Error × (Model × App J S) → Model × App J S
  unless_failed (err, w) = if failed err then shutdown w else w

  -- `OnJoinLobbyAccept`.
  unfoldable pub on_join_lobby_accept : Lobby J → Model × App J S → Model × App J S
  unfolding shutdown confirm_lobby_async
  on_join_lobby_accept l w =
      if not (length l.joined == 1)
      then shutdown w
      else unless_failed (confirm l (set_step confirm_lobby w))

  -- The cases of `HandleTransaction`, each with its error.
  abbrev pub ask_server :
      Option (DataPackage J) → Model × App J S → Option (Error × (Model × App J S))
  ask_server request w = request >>= λ pkg.
      some (put_client (server_transaction_async codecs.formats w.1.traverse.client pkg) w)

  abbrev pub on_connected : Model × App J S → Option (Error × (Model × App J S))
  on_connected w =
      ask_server
        (add_text codecs.formats
            (create_bare codecs.formats.wire.json Transaction.server_get_collection)
            MetaDataField.db_name w.0.app_config.mongo.db_name
          >>= λ p.
              add_text codecs.formats p MetaDataField.coll_name
                w.0.app_config.mongo.coll_traverse_config)
        w

  -- `IdentifyNATAsync` and `CollectPortsAsync`.
  abbrev pub start_task : Model × App J S → Error × (Model × App J S)
  start_task w = put_client (prepare_collect_task_async w.1.traverse.client) w

  abbrev pub on_collection :
      CollectingConfig J × Error → Model × App J S → Error × (Model × App J S)
  on_collection (config, err) w =
      let known = set_traverse (record w.1.traverse { config = config }) w in
      if failed err then (err, known) else start_task known

  abbrev pub on_nat_type :
      MetaVariant J (Unit {0} × NatType) → Model × App J S → Error × (Model × App J S)
  on_nat_type res (m, a) =
      if failed res.error
      then (res.error, (m, a))
      else put_client (prepare_http_task_async a.traverse.client)
          (set_client_nat_type m res.values.1, a)

  abbrev pub on_traceroute :
      IpMetaData × Error → Model × App J S → Option (Error × (Model × App J S))
  on_traceroute (info, err) (m, a) =
      if failed err
      then some (err, (m, a))
      else register_user_async codecs.formats a.traverse.client a.user_data.info.username >>= λ r.
          some (put_client r (set_client_meta_data m info, a))

  abbrev pub is_joining : Step → Bool
  is_joining join_lobby = true
  is_joining confirm_lobby = true
  is_joining _ = false

  -- If the session to join is gone, its window is closed.
  abbrev pub on_lobbies : AllLobbies J × Error → Model × App J S → Error × (Model × App J S)
  on_lobbies (lobbies, err) w =
      let known = set_traverse (record w.1.traverse { all_lobbies = lobbies }) w in
      if failed err
      then (err, known)
      else if is_joining w.1.traverse.current
          && not (contains w.1.traverse.join_info.other_session lobbies)
      then (no_error, shutdown (pop_pop_up_state call known))
      else (no_error, known)

  abbrev pub confirming : List (User J) → Lobby J → Model × App J S → Error × (Model × App J S)
  confirming [] l w = (no_error, shutdown w)
  confirming (other ∷ others) l w = (
    no_error,
    push_pop_up_state call PopUpState.join_lobby_pop_up_window (
        set_traverse
          (record w.1.traverse {
            join_info = record { other_session = other.session; merged_lobby = l };
            current = confirm_lobby;
          })
          w),
  )

  abbrev pub on_confirm_join_lobby : Lobby J × Error → Model × App J S → Error × (Model × App J S)
  on_confirm_join_lobby (l, err) w =
      let known =
        set_traverse
          (record w.1.traverse { join_info = record w.1.traverse.join_info { merged_lobby = l } })
          w in
      if failed err then (err, known) else confirming l.joined l known

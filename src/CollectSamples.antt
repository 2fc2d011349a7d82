-- ===== src/CollectSamples.antt =====
-- The global state that collects samples: AndroidSource/src/Components/GlobCollectSamples.cpp and .h. The
-- state is the model with what this part keeps; `rest` is the rest of the app, which callbacks may
-- change. `none` is an exception of nlohmann::json, of the look-up of a key, or of the planning of
-- the stages. Lines for the log are left out.
pub mod Quiet
pub mod Acts
pub mod Timers
use nat_data_collector.Prelude.{
  ℕ, String, Bool, true, false, not, ◌&&◌, ◌||◌, Option, none, some, List, [], ◌∷◌, ltb,
  if◌then◌else◌, ◌>>=◌,
}
use nat_data_collector.Types.{
  ErrorType, Transaction, MetaDataField, NatType, ConnectionType, is_random_sym,
}
use nat_data_collector.Errors.{Error, no_error, failed}
use nat_data_collector.Json.{Conversion, Codec}
use nat_data_collector.Protocol.{DataPackage, MetaVariant, create_bare, get_object, get, start}
use nat_data_collector.Data.{IpMetaData, blank_ip_meta_data, MultiAddressVector, NatSample}
use nat_data_collector.AppConfig.{AppConfig}
use nat_data_collector.Timer.{set_active}
use nat_data_collector.Model.{
  Model, Argument, set_client_meta_data, set_client_nat_type, try_switch_glob_state,
}
use nat_data_collector.Client.{Client, Ends, new_client, failure, connect_async, disconnect}
use nat_data_collector.Client.Requests.{
  Formats, server_transaction_async, upload_to_mongo_db_async, add_text,
}
use nat_data_collector.Client.Tasks.{
  prepare_collect_task_async, prepare_http_task_async, create_timer_async,
}
use nat_data_collector.Client.Publishing.{marked, timer_over}
use nat_data_collector.Client.Idle.{conclude}
use nat_data_collector.CollectPlan.{CollectingConfig, Objects}
use nat_data_collector.CollectPlan.Stages.{calculate_collect_stages}

-- `CollectSamplesStep`.
pub data Step : Type 0 where
  disconnected connected_idle connect_no_interrupt : Step

-- `CollectingConfig()`.
abbrev pub blank_config : {J : Type 0} → CollectingConfig J
blank_config = record {
  coll_name = "DifferentTraversalFrequencies";
  delay_collection_steps_ms = 180000;
  stages = [];
  added_dynamic_stages = [];
  override_stages = [];
}

pub record CollectSamples (J : Type 0) : Type 0 where
  pub current : Step
  pub readable_time_stamp : String
  pub analyze_collect_ports : MultiAddressVector
  pub client : Client
  pub config : CollectingConfig J

abbrev pub new_collect_samples : {J : Type 0} → CollectSamples J
new_collect_samples = record {
  current = disconnected;
  readable_time_stamp = "";
  analyze_collect_ports = record { stages = [] };
  client = new_client;
  config = blank_config;
}

pub record App (J S : Type 0) : Type 0 where
  pub collect : CollectSamples J
  pub rest : S

-- `debug_config` is `CollectConfig::config`, the constants of Components/GlobalConstants.h.
pub record Codecs (J : Type 0) : Type 0 where
  pub formats : Formats J
  pub objects : Objects J
  pub meta_data : Codec J IpMetaData
  pub config : Codec J (CollectingConfig J)
  pub ports : Codec J MultiAddressVector
  pub sample : Codec J NatSample
  pub nat_type : Conversion J NatType
  pub debug_config : CollectingConfig J

-- What the surroundings tell a handler: the clock, its text, the connection of the device, RAND_MAX
-- and the next random number, and what the tasks of the client end with if it disconnects.
pub record Surroundings : Type 0 where
  pub now : ℕ
  pub time_stamp : String
  pub connect_type : ConnectionType
  pub rand_max : ℕ
  pub random : ℕ
  pub ends : Ends

abbrev pub is_disconnected : Step → Bool
is_disconnected disconnected = true
is_disconnected _ = false

-- A reconnection is tried later after an error.
abbrev pub retry_later : Bool → ℕ → Client → Client
retry_later b now c = if b then create_timer_async c now 300000 else c

-- The sample that is uploaded.
abbrev pub sample_of : {J : Type 0} → ConnectionType → Model → CollectSamples J → NatSample
sample_of connect_type m c = record {
  meta_data = m.client_meta_data;
  timestamp = c.readable_time_stamp;
  connection_type = connect_type;
  stage_results = c.analyze_collect_ports.stages;
  delay_between_samples_ms = c.config.delay_collection_steps_ms;
}

module _ {J S : Type 0} where
  abbrev pub set_collect : CollectSamples J → Model × App J S → Model × App J S
  set_collect c (m, a) = (m, record a { collect = c })

  abbrev pub set_step : Step → Model × App J S → Model × App J S
  set_step s (m, a) = (m, record a { collect = record a.collect { current = s } })

  abbrev pub set_client : Client → Model × App J S → Model × App J S
  set_client c (m, a) = (m, record a { collect = record a.collect { client = c } })

  abbrev pub put_client : Error × Client → Model × App J S → Error × (Model × App J S)
  put_client (err, c) w = (err, set_client c w)

  -- `Shutdown`.
  unfoldable pub shutdown : Surroundings → Error → Model × App J S → Model × App J S
  unfolding disconnect create_timer_async
  shutdown env err (m, a) =
      set_collect
        (record {
          current = disconnected;
          readable_time_stamp = "";
          analyze_collect_ports = record { stages = [] };
          client = retry_later (failed err) env.now (disconnect a.collect.client env.ends).1;
          config = blank_config;
        })
        (m, a)

  abbrev pub wait_for : ℕ → Model × App J S → Model × App J S
  wait_for now w =
      set_client
        (create_timer_async w.1.collect.client now w.1.collect.config.delay_collection_steps_ms) w

  -- `OnFrameTime`.
  unfoldable pub on_frame_time : Surroundings → ℕ → Model × App J S → Model × App J S
  unfolding shutdown create_timer_async
  on_frame_time env frame_time_ms w =
      if ltb 5000 frame_time_ms && not (is_disconnected w.1.collect.current)
      then wait_for env.now
          (shutdown env (failure "Frame time is above 5 sec, app is sleeping.Abort ..") w)
      else w

  -- `StartGlobState`: whatever `ConnectAsync` says.
  abbrev pub start_at : Step → Surroundings → Model × App J S → Model × App J S
  start_at disconnected env w =
      set_step connected_idle (set_client (connect_async w.1.collect.client env.ends).1 w)
  start_at _ env w = w

  unfoldable pub start_glob_state : Surroundings → Model × App J S → Model × App J S
  unfolding connect_async
  start_glob_state env w = start_at w.1.collect.current env w

  -- `EndGlobState`.
  unfoldable pub end_glob_state : Surroundings → Model × App J S → Model × App J S
  unfolding shutdown
  end_glob_state env w = shutdown env no_error w

module _ {J : Type 0} (codecs : Codecs J) where
  abbrev pub ask_config : AppConfig → Option (DataPackage J)
  ask_config config =
      add_text codecs.formats
        (create_bare codecs.formats.wire.json Transaction.server_get_collection)
        MetaDataField.db_name config.mongo.db_name
      >>= λ p. add_text codecs.formats p MetaDataField.coll_name config.mongo.coll_collect_config

module _ {J S : Type 0} (codecs : Codecs J) (env : Surroundings) where
  -- `IdentifyNATAsync` and `CollectPortsAsync`.
  abbrev pub start_task : Model × App J S → Error × (Model × App J S)
  start_task w = put_client (prepare_collect_task_async w.1.collect.client) w

  abbrev pub trace_route : Model × App J S → Error × (Model × App J S)
  trace_route w = put_client (prepare_http_task_async w.1.collect.client) w

  -- The device may have to be behind a random symmetric NAT.
  abbrev pub with_nat_type : NatType → Model × App J S → Error × (Model × App J S)
  with_nat_type nat_type (m, a) =
      let known : Model × App J S = (set_client_nat_type m nat_type, a) in
      if m.app_config.app.random_nat_required && not (is_random_sym nat_type)
      then (no_error, set_step connected_idle (wait_for env.now known))
      else trace_route (set_step connect_no_interrupt known)

  abbrev pub on_nat_type :
      MetaVariant J (Unit {0} × NatType) → Model × App J S → Error × (Model × App J S)
  on_nat_type res w = if failed res.error then (res.error, w) else with_nat_type res.values.1 w

  -- The stages of the configuration are planned, and collecting starts.
  abbrev pub collect_ports : Model × App J S → Option (Error × (Model × App J S))
  collect_ports w =
      calculate_collect_stages codecs.objects env.rand_max env.random w.0.app_config.server_address
        w.1.collect.config w.0.client_meta_data
      >>= λ stages.
          let (err, (m, a)) = start_task w in
          some (err, set_collect (record a.collect { readable_time_stamp = env.time_stamp }) (m, a))

  abbrev pub ask_server :
      Option (DataPackage J) → Model × App J S → Option (Error × (Model × App J S))
  ask_server request w = request >>= λ pkg.
      some (put_client (server_transaction_async codecs.formats w.1.collect.client pkg) w)

  abbrev pub with_config : CollectingConfig J → Model × App J S → Model × App J S
  with_config config w = set_collect (record w.1.collect { config = config }) w

  abbrev pub on_traceroute :
      IpMetaData × Error → Model × App J S → Option (Error × (Model × App J S))
  on_traceroute (info, err) (m, a) =
      let known : Model × App J S = (set_client_meta_data m info, a) in
      if failed err
      then some (err, (m, a))
      else if m.app_config.app.use_debug_collect_config
      then collect_ports (with_config codecs.debug_config known)
      else ask_server (ask_config codecs m.app_config) known

  abbrev pub on_collection :
      CollectingConfig J × Error → Model × App J S → Option (Error × (Model × App J S))
  on_collection (config, err) w =
      if failed err then some (err, with_config config w) else collect_ports (with_config config w)

  abbrev pub upload : Model × App J S → Option (Error × (Model × App J S))
  upload w =
      upload_to_mongo_db_async codecs.formats w.1.collect.client codecs.sample
        (sample_of env.connect_type w.0 w.1.collect) w.0.app_config.mongo.db_name
        w.1.collect.config.coll_name w.0.app_config.mongo.coll_users_name
        w.0.client_meta_data.android_id
      >>= λ r. some (put_client r w)

  abbrev pub on_collected_ports :
      MultiAddressVector × Error → Model × App J S → Option (Error × (Model × App J S))
  on_collected_ports (ports, err) w =
      let got = set_collect (record w.1.collect { analyze_collect_ports = ports }) w in
      if failed err then some (err, got) else upload got

  abbrev pub on_timer_over : Step → Model × App J S → Error × (Model × App J S)
  on_timer_over disconnected w = (no_error, start_glob_state env w)
  on_timer_over _ w = let (err, u) = start_task w in (err, set_step connect_no_interrupt u)

  abbrev pub on_transaction :
      Transaction → DataPackage J → Model × App J S → Option (Error × (Model × App J S))
  on_transaction Transaction.client_connected pkg w = some (start_task w)
  on_transaction Transaction.client_receive_nat_type pkg w =
      get codecs.formats.wire.json codecs.nat_type (start codecs.formats.wire.json pkg)
        MetaDataField.nat_type
      >>= λ res. some (on_nat_type res w)
  on_transaction Transaction.client_receive_traceroute pkg w =
      on_traceroute (get_object codecs.meta_data pkg blank_ip_meta_data) w
  on_transaction Transaction.client_receive_collection pkg w =
      on_collection (get_object codecs.config pkg w.1.collect.config) w
  on_transaction Transaction.client_receive_collected_ports pkg w =
      on_collected_ports (get_object codecs.ports pkg w.1.collect.analyze_collect_ports) w
  on_transaction Transaction.client_upload_success pkg w =
      some (no_error, set_step connected_idle (wait_for env.now w))
  on_transaction Transaction.client_timer_over pkg w = some (on_timer_over w.1.collect.current w)
  on_transaction _ pkg w = some (no_error, w)

  -- `OnTransactionEvent`.
  unfoldable pub on_transaction_event : DataPackage J → Model × App J S → Option (Model × App J S)
  unfolding shutdown start_glob_state get_object get server_transaction_async
      prepare_http_task_async prepare_collect_task_async set_client_nat_type set_client_meta_data
      upload_to_mongo_db_async calculate_collect_stages create_timer_async
  on_transaction_event pkg w = conclude (shutdown env) (on_transaction pkg.transaction pkg w)

  -- What the subscriptions of `Activate` do with a package that the client publishes.
  abbrev pub on_published : Transaction → DataPackage J → Model × App J S → Option (Model × App J S)
  on_published Transaction.error pkg w = some (shutdown env pkg.error w)
  on_published _ pkg w = on_transaction_event pkg w

  unfoldable pub on_package : DataPackage J → Model × App J S → Option (Model × App J S)
  unfolding on_transaction_event
  on_package pkg w = let p = marked pkg in on_published p.transaction p w

  -- The end of the timer in `client.Update`, which switches the timer off afterwards.
  unfoldable pub on_timer : Model × App J S → Option (Model × App J S)
  unfolding on_package
  on_timer w =
      on_package (create_bare codecs.formats.wire.json Transaction.client_timer_over) w >>= λ u.
      some (set_client (timer_over u.1.collect.client) u)

abbrev pub is_not_connected : ConnectionType → Bool
is_not_connected ConnectionType.not_connected = true
is_not_connected _ = false

abbrev pub is_wifi : ConnectionType → Bool
is_wifi ConnectionType.wifi = true
is_wifi _ = false

abbrev pub wrong_connection : ConnectionType → Model → Bool
wrong_connection connect_type m =
    is_not_connected connect_type || (m.app_config.app.random_nat_required && is_wifi connect_type)

-- What `client.Update` comes to: a package that it publishes, or the end of the timer.
pub data Published (J : Type 0) : Type 0 where
  came : DataPackage J → Published J
  timer : Published J

module _ {J S : Type 0} (codecs : Codecs J)
    (call : ℕ → Argument J → Model × App J S → Model × App J S) (env : Surroundings) where
  abbrev pub publish_one : Published J → Model × App J S → Option (Model × App J S)
  publish_one (came pkg) w = on_package codecs env pkg w
  publish_one timer w = on_timer codecs env w

  unfoldable pub publish_all : List (Published J) → Model × App J S → Option (Model × App J S)
  unfolding on_package on_timer
  publish_all [] w = some w
  publish_all (p ∷ ps) w = publish_one p w >>= λ u. publish_all ps u

  abbrev pub shutdown_if : Bool × (Model × App J S) → Model × App J S
  shutdown_if (true, w) = shutdown env no_error w
  shutdown_if (false, w) = w

  abbrev pub after_update : Step → Model × App J S → Model × App J S
  after_update disconnected w = (try_switch_glob_state call w).1
  after_update connected_idle w = shutdown_if (try_switch_glob_state call w)
  after_update connect_no_interrupt w =
      if wrong_connection env.connect_type w.0
      then shutdown env (failure "Disconnected from random symmetric NAT device") w
      else w

  -- `UpdateGlobState`, with what `client.Update` publishes.
  unfoldable pub update_glob_state : List (Published J) → Model × App J S → Option (Model × App J S)
  unfolding publish_all shutdown try_switch_glob_state
  update_glob_state ps w = publish_all ps w >>= λ u. some (after_update u.1.collect.current u)

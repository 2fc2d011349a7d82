-- ===== src/Traverse/Run.antt =====
-- The second half of `HandleTransaction` of AndroidSource/src/Components/GlobTraverse.cpp, from the start
-- of the analysis on, and `Update`.
use nat_data_collector.Prelude.{
  ℕ, zero, suc, ◌+◌, ◌-◌, ◌*◌, ◌/◌, ◌%◌, Option, none, some, List, [], ◌∷◌, ltb, is_empty,
  if◌then◌else◌, ◌>>=◌,
}
use nat_data_collector.Types.{Transaction, MetaDataField, NatType}
use nat_data_collector.Errors.{Error, no_error, failed}
use nat_data_collector.Protocol.{
  DataPackage, MetaVariant, create_data, add_meta, get_object, get, start, start_object,
}
use nat_data_collector.Data.{
  Address, blank_address, blank_ip_meta_data, MultiAddressVector, TraversalClient,
}
use nat_data_collector.Model.{
  Model, TabState, Argument, pop_pop_up_state, set_tab_state, try_switch_glob_state,
}
use nat_data_collector.Client.{failure}
use nat_data_collector.Client.Requests.{
  server_transaction_async, exchange_prediction_async, add_text,
}
use nat_data_collector.Client.Tasks.{prepare_traverse_task_async, create_timer_async}
use nat_data_collector.Client.Publishing.{marked}
use nat_data_collector.Client.Idle.{conclude}
use nat_data_collector.Collect.{Settings, Stage}
use nat_data_collector.CollectPlan.{Ports}
use nat_data_collector.CollectPlan.Stages.{calculate_collect_stages}
use nat_data_collector.Predictor.{
  Prediction, predicted, undecided, undefined, predict_cone_nat, predict_random_nat,
}
use nat_data_collector.Holepunch.{Config, Result, blank_result}
use nat_data_collector.Traverse.{
  Step, disconnected, connected, no_interrupt, Traverse, App, Codecs, Surroundings, set_traverse,
  set_step, put_client, shutdown, confirm, start_task, on_connected, on_collection, on_nat_type,
  on_traceroute, on_lobbies, on_confirm_join_lobby, ask_server,
}

-- `stages.back()` and `stages.pop_back()`.
unfoldable pub last_stage : Stage Ports → List (Stage Ports) → Stage Ports
last_stage s [] = s
last_stage s (t ∷ rest) = last_stage t rest

abbrev pub back : List (Stage Ports) → Option (Stage Ports)
back [] = none
back (s ∷ rest) = some (last_stage s rest)

-- What a device may use up for sending, and until when it waits; both of type uint32_t.
abbrev pub deadline : ℕ → ℕ → ℕ
deadline other_duration own_duration =
    ((if ltb own_duration other_duration then other_duration else own_duration) + 5000) % 4294967296

-- The new rate, with the longer of the two durations over the own sample size.
unfoldable pub sample_rate : ℕ → ℕ → ℕ → Option ℕ
sample_rate other_duration own_duration zero = none
sample_rate other_duration own_duration (suc n) = some (
    (if ltb own_duration other_duration then other_duration / suc n else own_duration / suc n)
    % 65536)

-- The two configurations of hole punching.
abbrev pub cone_config : Address → ℕ → ℕ → Config
cone_config predicted_address local_port deadline_duration = record {
  target_client = predicted_address;
  traversal_attempts = 1;
  traversal_rate = 0;
  local_port = local_port;
  deadline_duration_ms = deadline_duration;
  keep_alive_rate_ms = 28000;
}

abbrev pub random_config : Address → Settings → ℕ → Config
random_config predicted_address s deadline_duration = record {
  target_client = predicted_address;
  traversal_attempts = s.sample_size;
  traversal_rate = s.sample_rate_ms;
  local_port = s.local_port;
  deadline_duration_ms = deadline_duration;
  keep_alive_rate_ms = 0;
}

-- The configuration for what the other device sends, and the own settings, whose rate may change;
-- the inner `none` is a NAT type that is not supported.
abbrev pub with_rate : Address → ℕ → Settings → ℕ → Config × Settings
with_rate predicted_address deadline_duration s rate =
    let changed : Settings = record s { sample_rate_ms = rate } in
    (random_config predicted_address changed deadline_duration, changed)

-- The products of two numbers of type uint16_t, which are of type int: one that does not fit is not
-- defined.
unfoldable pub int_product : ℕ → ℕ → Option ℕ
int_product a b = if ltb (a * b) 2147483648 then some (a * b) else none

-- The configuration for the two durations.
abbrev pub config_for :
    NatType → Address → ℕ → ℕ → ℕ → Settings → Option (Option (Config × Settings))
config_for NatType.cone predicted_address other_duration own_duration local_port s =
    some (some (cone_config predicted_address local_port (deadline other_duration own_duration), s))
config_for NatType.random_sym predicted_address other_duration own_duration local_port s =
    sample_rate other_duration own_duration s.sample_size >>= λ rate.
    some (some (with_rate predicted_address (deadline other_duration own_duration) s rate))
config_for _ predicted_address other_duration own_duration local_port s = some none

unfoldable pub traversal_config :
    NatType → Address → ℕ → ℕ → ℕ → Settings → Option (Option (Config × Settings))
unfolding sample_rate int_product
traversal_config nat_type predicted_address other_size other_rate local_port s =
    int_product other_size other_rate >>= λ other_duration.
    int_product s.sample_size s.sample_rate_ms >>= λ own_duration.
    config_for nat_type predicted_address other_duration own_duration local_port s

module _ {J S : Type 0} (codecs : Codecs J)
    (call : ℕ → Argument J → Model × App J S → Model × App J S) (env : Surroundings) where
  -- `while (!model.IsPopUpQueueEmpty()) model.PopPopUpState();`
  unfoldable pub clear_pop_ups : ℕ → Model × App J S → Option (Model × App J S)
  unfolding pop_pop_up_state
  clear_pop_ups zero w = if is_empty w.0.popup_queue then some w else none
  clear_pop_ups (suc f) w =
      let rest = clear_pop_ups f (pop_pop_up_state call w) in
      if is_empty w.0.popup_queue then some w else rest

  -- The first random number is that for the local port of a cone NAT.
  abbrev pub analyze_cone : Model × App J S → Error × (Model × App J S)
  analyze_cone w = start_task codecs call env (
      set_traverse
        (record w.1.traverse {
          cone_local_port = env.random 0 / ((env.rand_max + 1) / 16000) + 10000;
        })
        w)

  abbrev pub keep_last : Model × App J S → Stage Ports → Model × App J S
  keep_last w stage = set_traverse (record w.1.traverse { rnat_trav_stage = stage }) w

  abbrev pub analyze_random : Model × App J S → Option (Error × (Model × App J S))
  analyze_random w =
      calculate_collect_stages codecs.objects env.rand_max (env.random 0)
        w.0.app_config.server_address w.1.traverse.config w.0.client_meta_data
      >>= λ stages. back stages >>= λ stage. some (start_task codecs call env (keep_last w stage))

  abbrev pub analyze : NatType → Model × App J S → Option (Error × (Model × App J S))
  analyze NatType.cone w = some (analyze_cone w)
  analyze NatType.random_sym w = analyze_random w
  analyze _ w = some (no_error, shutdown codecs call env w)

  abbrev pub to_log : Model × App J S → Model × App J S
  to_log w =
      let u = set_tab_state call TabState.log w in
      set_traverse
        (record u.1.traverse { current = no_interrupt; start_traversal_timestamp = env.now }) u

  abbrev pub on_start_analyze : Model × App J S → Option (Error × (Model × App J S))
  on_start_analyze w =
      clear_pop_ups env.pops w >>= λ u. analyze (to_log u).0.client_meta_data.nat_type (to_log u)

  -- The dynamic parameters of the last stage.
  abbrev pub with_settings : Traverse J → Settings → Traverse J
  with_settings t s = record t { rnat_trav_stage = record t.rnat_trav_stage { settings = s } }

  abbrev pub started_by :
      Option (Settings → MultiAddressVector → ℕ → ℕ → Option Settings)
      → Traverse J
      → Option (Traverse J)
  started_by none t = some t
  started_by (some cb) t =
      cb t.rnat_trav_stage.settings t.analyze_results t.start_traversal_timestamp env.now >>= λ s.
      some (with_settings t s)

  abbrev pub started : Traverse J → Option (Traverse J)
  started t = started_by t.rnat_trav_stage.start_stage_cb t

  abbrev pub one_sample : Traverse J → Traverse J
  one_sample t = record t {
    rnat_trav_stage = record t.rnat_trav_stage {
      settings = record t.rnat_trav_stage.settings { sample_size = 1; sample_rate_ms = 0 };
    };
  }

  abbrev pub send_prediction :
      Address × Error → Model × App J S → Option (Error × (Model × App J S))
  send_prediction (predicted_address, err) w =
      let s = w.1.traverse.rnat_trav_stage.settings in
      if failed err
      then some (err, w)
      else exchange_prediction_async codecs.formats w.1.traverse.client predicted_address
          s.sample_size s.sample_rate_ms
        >>= λ r. some (put_client r w)

  abbrev pub of_prediction : Prediction J → Model × App J S → Option (Error × (Model × App J S))
  of_prediction (predicted pkg) w =
      send_prediction (get_object codecs.formats.address pkg blank_address) w
  of_prediction undecided w = none
  of_prediction undefined w = none

  abbrev pub predict : NatType → Model × App J S → Option (Error × (Model × App J S))
  predict NatType.cone w =
      of_prediction
        (predicted (
          predict_cone_nat codecs.formats.wire.json codecs.formats.address
            w.1.traverse.analyze_results w.1.traverse.cone_local_port))
        (set_traverse (one_sample w.1.traverse) w)
  predict NatType.random_sym w =
      of_prediction
        (predict_random_nat codecs.formats.wire.json codecs.formats.address env.rand_max env.random
          env.draws w.1.traverse.analyze_results)
        w
  predict _ w = some (failure "Can not perform prediction for current NAT type", w)

  abbrev pub on_collected_ports :
      MultiAddressVector × Error → Model × App J S → Option (Error × (Model × App J S))
  on_collected_ports (ports, err) w =
      let t : Traverse J = record w.1.traverse { analyze_results = ports } in
      if failed err
      then some (err, set_traverse t w)
      else started t >>= λ u. predict w.0.client_meta_data.nat_type (set_traverse u w)

  -- Hole punching starts.
  abbrev pub punch : Option (Config × Settings) → Model × App J S → Error × (Model × App J S)
  punch none w = (no_error, shutdown codecs call env w)
  punch (some (config, s)) w = put_client (prepare_traverse_task_async w.1.traverse.client) (
      set_traverse
        (record w.1.traverse {
          traverse_config = config;
          rnat_trav_stage = record w.1.traverse.rnat_trav_stage { settings = s };
        })
        w)

  abbrev pub on_start_traversal :
      MetaVariant J (((Unit {0} × Address) × ℕ) × ℕ)
      → Model × App J S
      → Option (Error × (Model × App J S))
  on_start_traversal v w =
      if failed v.error
      then some (v.error, w)
      else traversal_config w.0.client_meta_data.nat_type v.values.0.0.1 v.values.0.1 v.values.1
          w.1.traverse.cone_local_port w.1.traverse.rnat_trav_stage.settings
        >>= λ config. some (punch config w)

  abbrev pub traversal_data :
      DataPackage J → Option (MetaVariant J (((Unit {0} × Address) × ℕ) × ℕ))
  traversal_data pkg =
      let json = codecs.formats.wire.json in
      get json codecs.formats.number (start_object codecs.formats.address pkg)
        MetaDataField.traversal_size
      >>= λ v. get json codecs.formats.number v MetaDataField.traversal_rate

  -- What is told of the traversal.
  abbrev pub result_info : Model → Traverse J → Result → TraversalClient
  result_info m t hp_result = record {
    success_index = hp_result.rcvd_index;
    traversal_attempts = t.traverse_config.traversal_attempts;
    analyze_results = t.analyze_results;
    connection_type = env.connect_type;
    prediction = t.traverse_config.target_client;
    start_time_stamp = env.time_stamp t.start_traversal_timestamp;
    duration_ms = env.now - t.start_traversal_timestamp;
    meta_data = m.client_meta_data;
  }

  abbrev pub result_package : Model → Traverse J → Result → Option (DataPackage J)
  result_package m t hp_result =
      let json = codecs.formats.wire.json in
      add_meta json codecs.flag
        (create_data json codecs.traversal_client (result_info m t hp_result)
          Transaction.server_upload_traversal_result)
        MetaDataField.success hp_result.success
      >>= λ p. add_text codecs.formats p MetaDataField.db_name m.app_config.mongo.db_name >>= λ q.
          add_text codecs.formats q MetaDataField.coll_name t.config.coll_name >>= λ r.
          add_text codecs.formats r MetaDataField.users_coll_name m.app_config.mongo.coll_users_name

  abbrev pub on_result : Result × Error → Model × App J S → Option (Error × (Model × App J S))
  on_result (hp_result, err) w =
      if failed err
      then some (err, w)
      else ask_server codecs call env (result_package w.0 w.1.traverse hp_result)
          (set_step connected w)

  abbrev pub on_timer_over : Model × App J S → Error × (Model × App J S)
  on_timer_over w =
      if is_empty w.1.traverse.join_info.merged_lobby.joined
      then (no_error, w)
      else confirm codecs call env w.1.traverse.join_info.merged_lobby w

  abbrev pub wait_for : Model × App J S → Error × (Model × App J S)
  wait_for w =
      put_client
        (
          no_error,
          create_timer_async w.1.traverse.client env.now
              w.1.traverse.config.delay_collection_steps_ms,
        )
        w

  abbrev pub on_transaction :
      Transaction → DataPackage J → Model × App J S → Option (Error × (Model × App J S))
  on_transaction Transaction.client_connected pkg w = on_connected codecs call env w
  on_transaction Transaction.client_receive_collection pkg w =
      some (on_collection codecs call env (get_object codecs.config pkg w.1.traverse.config) w)
  on_transaction Transaction.client_receive_nat_type pkg w =
      get codecs.formats.wire.json codecs.nat_type (start codecs.formats.wire.json pkg)
        MetaDataField.nat_type
      >>= λ res. some (on_nat_type codecs call env res w)
  on_transaction Transaction.client_receive_traceroute pkg w =
      on_traceroute codecs call env (get_object codecs.meta_data pkg blank_ip_meta_data) w
  on_transaction Transaction.client_receive_lobbies pkg w =
      some (on_lobbies codecs call env (get_object codecs.lobbies pkg w.1.traverse.all_lobbies) w)
  on_transaction Transaction.client_confirm_join_lobby pkg w = some (
      on_confirm_join_lobby codecs call env
        (get_object codecs.formats.lobby pkg w.1.traverse.join_info.merged_lobby) w)
  on_transaction Transaction.client_start_analyze_nat pkg w = on_start_analyze w
  on_transaction Transaction.client_receive_collected_ports pkg w =
      on_collected_ports (get_object codecs.ports pkg w.1.traverse.analyze_results) w
  on_transaction Transaction.client_start_traversal pkg w =
      traversal_data pkg >>= λ v. on_start_traversal v w
  on_transaction Transaction.client_traversal_result pkg w =
      on_result (get_object codecs.result pkg blank_result) w
  on_transaction Transaction.client_upload_success pkg w = some (wait_for w)
  on_transaction Transaction.client_timer_over pkg w = some (on_timer_over w)
  on_transaction _ pkg w = some (no_error, w)

  -- `HandleTransaction`.
  unfoldable pub handle_transaction : DataPackage J → Model × App J S → Option (Model × App J S)
  unfolding shutdown clear_pop_ups last_stage traversal_config get_object get create_data
      predict_cone_nat predict_random_nat exchange_prediction_async server_transaction_async
      prepare_traverse_task_async create_timer_async set_tab_state calculate_collect_stages
  handle_transaction pkg w =
      conclude (λ err. shutdown codecs call env) (on_transaction pkg.transaction pkg w)

  -- What the subscriptions of `Activate` do with a package that the client publishes.
  abbrev pub on_published : Transaction → DataPackage J → Model × App J S → Option (Model × App J S)
  on_published Transaction.error pkg w = some (shutdown codecs call env w)
  on_published _ pkg w = handle_transaction pkg w

  unfoldable pub on_packages : List (DataPackage J) → Model × App J S → Option (Model × App J S)
  unfolding handle_transaction
  on_packages [] w = some w
  on_packages (pkg ∷ pkgs) w =
      let p = marked pkg in on_published p.transaction p w >>= λ u. on_packages pkgs u

  abbrev pub after_update : Step → Model × App J S → Model × App J S
  after_update disconnected w = (try_switch_glob_state call w).1
  after_update connected w = (try_switch_glob_state call w).1
  after_update _ w = w

  -- `Update`, with the packages that `client.Update` publishes.
  unfoldable pub update : List (DataPackage J) → Model × App J S → Option (Model × App J S)
  unfolding on_packages try_switch_glob_state
  update pkgs w = on_packages pkgs w >>= λ u. some (after_update u.1.traverse.current u)

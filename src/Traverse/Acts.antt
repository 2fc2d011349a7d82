-- ===== src/Traverse/Acts.antt =====
-- Any sequence of calls of AndroidSource/src/Components/GlobTraverse.cpp.
use nat_data_collector.Prelude.{
  ℕ, zero, suc, ◌+◌, ◌/◌, Option, none, some, List, [], ◌∷◌, ◌>>=◌, Whenever, Whenever-bind,
  Whenever-step, Whenever-at, if-both, is_empty,
}
use nat_data_collector.Types.{Transaction, NatType, MetaDataField}
use nat_data_collector.Errors.{Error, failed}
use nat_data_collector.Protocol.{DataPackage, MetaVariant, create_bare, get, get_object, start}
use nat_data_collector.Data.{Address, blank_address, blank_ip_meta_data, MultiAddressVector, Lobby}
use nat_data_collector.Model.{Model, Argument, pop_pop_up_state}
use nat_data_collector.Model.Keeps.{Keeps, pop_pop_up_state-keeps}
use nat_data_collector.Client.Requests.{add_text}
use nat_data_collector.Client.Idle.{IsRefused}
use nat_data_collector.Traverse.{
  Step, disconnected, connected, Traverse, App, Codecs, Surroundings, set_traverse, set_step,
  shutdown, on_frame_time, start_draw, end_draw, join, on_join_lobby_accept, start_task,
  on_nat_type,
}
use nat_data_collector.Client.Requests.{exchange_prediction_async}
use nat_data_collector.Client.Tasks.{prepare_traverse_task_async}
use nat_data_collector.Client.Publishing.{marked}
use nat_data_collector.Client.Idle.{
  conclude-Whenever, prepare_traverse_task_async-idle, exchange_prediction_async-idle, timed-IsIdle,
}
use nat_data_collector.Collect.{Settings}
use nat_data_collector.CollectPlan.Stages.{calculate_collect_stages}
use nat_data_collector.Predictor.{
  Prediction, predicted, undecided, undefined, predict_cone_nat, predict_random_nat,
}
use nat_data_collector.Holepunch.{Config, Result, blank_result}
use nat_data_collector.Model.Keeps.{try_switch_glob_state-keeps}
use nat_data_collector.Traverse.Run.{
  back, traversal_config, clear_pop_ups, keep_last, analyze, to_log, on_start_analyze,
  with_settings, started_by, one_sample, send_prediction, of_prediction, predict,
  on_collected_ports, punch, on_start_traversal, traversal_data, result_package, on_result,
  on_timer_over, on_transaction, handle_transaction, on_published, on_packages, after_update,
  update,
}
use nat_data_collector.Traverse.Quiet.{
  Rests, Done, request-Rests, shutdown-Rests, ask_server-Done, start_task-Done, on_collection-Done,
  on_nat_type-Done, on_traceroute-Done, on_lobbies-Done, on_confirm_join_lobby-Done,
  on_frame_time-Rests, start_draw-Rests, end_draw-Rests, join-Rests, confirm-Done,
  on_join_lobby_accept-Rests,
}

module _ {J S : Type 0} (codecs : Codecs J)
    (call : ℕ → Argument J → Model × App J S → Model × App J S) (keeps : Keeps Rests call)
    (env : Surroundings) where
  clear_pop_ups-Rests :
      (f : ℕ) (w : Model × App J S)
      → Rests w.1
      → Whenever (λ u. Rests u.1) (clear_pop_ups codecs call env f w)
  unfolding clear_pop_ups
  clear_pop_ups-Rests zero w rests =
      if-both (Whenever (λ (u : Model × App J S). Rests u.1)) (is_empty w.0.popup_queue) (some w)
        none rests tt
  clear_pop_ups-Rests (suc f) w rests =
      if-both (Whenever (λ (u : Model × App J S). Rests u.1)) (is_empty w.0.popup_queue) (some w)
        (clear_pop_ups codecs call env f (pop_pop_up_state call w)) rests
        (clear_pop_ups-Rests f (pop_pop_up_state call w)
          (pop_pop_up_state-keeps Rests call keeps w rests))

  analyze-Done :
      (t : NatType) (w : Model × App J S) → Rests w.1 → Whenever Done (analyze codecs call env t w)
  analyze-Done NatType.cone w rests =
      start_task-Done codecs call keeps env
        (set_traverse
          (record w.1.traverse {
            cone_local_port = env.random 0 / ((env.rand_max + 1) / 16000) + 10000;
          })
          w)
        rests
  analyze-Done NatType.random_sym w rests =
      Whenever-bind (Done {J = J} {S = S})
        (calculate_collect_stages codecs.objects env.rand_max (env.random 0)
          w.0.app_config.server_address w.1.traverse.config w.0.client_meta_data)
        (λ stages. back stages >>= λ stage.
          some (start_task codecs call env (keep_last codecs call env w stage)))
        (λ stages _.
          Whenever-bind (Done {J = J} {S = S}) (back stages)
            (λ stage. some (start_task codecs call env (keep_last codecs call env w stage)))
            (λ stage _.
              start_task-Done codecs call keeps env (keep_last codecs call env w stage) rests))
  analyze-Done _ w rests = λ _. shutdown-Rests codecs call keeps env w

  on_start_analyze-Done :
      (w : Model × App J S) → Rests w.1 → Whenever Done (on_start_analyze codecs call env w)
  on_start_analyze-Done w rests =
      Whenever-bind (Done {J = J} {S = S}) (clear_pop_ups codecs call env env.pops w)
        (λ u.
          analyze codecs call env (to_log codecs call env u).0.client_meta_data.nat_type
            (to_log codecs call env u))
        (λ u _.
          analyze-Done (to_log codecs call env u).0.client_meta_data.nat_type
            (to_log codecs call env u) (λ e. cc e))

  send_prediction-Done :
      (r : Address × Error) (w : Model × App J S)
      → Rests w.1
      → Whenever Done (send_prediction codecs call env r w)
  send_prediction-Done (a, err) w rests =
      let s = w.1.traverse.rnat_trav_stage.settings in
      let c = w.1.traverse.client in
      if-both (Whenever (λ (r : Error × (Model × App J S)). Done r)) (failed err) _ _ (λ _. rests)
        (Whenever-bind (Done {J = J} {S = S})
          (exchange_prediction_async codecs.formats c a s.sample_size s.sample_rate_ms) _
          (λ r e. request-Rests w r rests (λ idle.
            Whenever-at IsRefused _
              (exchange_prediction_async-idle codecs.formats c idle a s.sample_size
                s.sample_rate_ms)
              e)))

  of_prediction-Done :
      (p : Prediction J) (w : Model × App J S)
      → Rests w.1
      → Whenever Done (of_prediction codecs call env p w)
  of_prediction-Done (predicted pkg) w rests =
      send_prediction-Done (get_object codecs.formats.address pkg blank_address) w rests
  of_prediction-Done undecided w rests = tt
  of_prediction-Done undefined w rests = tt

  predict-Done :
      (t : NatType) (w : Model × App J S) → Rests w.1 → Whenever Done (predict codecs call env t w)
  predict-Done NatType.cone w rests =
      of_prediction-Done
        (predicted (
          predict_cone_nat codecs.formats.wire.json codecs.formats.address
            w.1.traverse.analyze_results w.1.traverse.cone_local_port))
        (set_traverse (one_sample codecs call env w.1.traverse) w) rests
  predict-Done NatType.random_sym w rests =
      of_prediction-Done
        (predict_random_nat codecs.formats.wire.json codecs.formats.address env.rand_max env.random
          env.draws w.1.traverse.analyze_results)
        w rests
  predict-Done _ w rests = λ _. rests

  -- The dynamic parameters leave the state and the client.
  settled-predicts :
      (o : Option Settings) (t : Traverse J) (nat_type : NatType) (w : Model × App J S)
      → Rests (set_traverse t w).1
      → Whenever Done (
          (o >>= λ s. some (with_settings codecs call env t s)) >>= λ u.
          predict codecs call env nat_type (set_traverse u w))
  settled-predicts none t nat_type w rests = tt
  settled-predicts (some s) t nat_type w rests =
      predict-Done nat_type (set_traverse (with_settings codecs call env t s) w) rests

  started_by-predicts :
      (cb : Option (Settings → MultiAddressVector → ℕ → ℕ → Option Settings)) (t : Traverse J)
      (nat_type : NatType) (w : Model × App J S)
      → Rests (set_traverse t w).1
      → Whenever Done (
          started_by codecs call env cb t >>= λ u.
          predict codecs call env nat_type (set_traverse u w))
  started_by-predicts none t nat_type w rests = predict-Done nat_type (set_traverse t w) rests
  started_by-predicts (some cb) t nat_type w rests =
      settled-predicts
        (cb t.rnat_trav_stage.settings t.analyze_results t.start_traversal_timestamp env.now) t
        nat_type w rests

  on_collected_ports-Done :
      (r : MultiAddressVector × Error) (w : Model × App J S)
      → Rests w.1
      → Whenever Done (on_collected_ports codecs call env r w)
  on_collected_ports-Done (ports, err) w rests =
      let t : Traverse J = record w.1.traverse { analyze_results = ports } in
      if-both (Whenever (λ (r : Error × (Model × App J S)). Done r)) (failed err) _ _ (λ _. rests)
        (started_by-predicts t.rnat_trav_stage.start_stage_cb t w.0.client_meta_data.nat_type w
          rests)

  punch-Done :
      (o : Option (Config × Settings)) (w : Model × App J S)
      → Rests w.1
      → Done (punch codecs call env o w)
  punch-Done none w rests = λ _. shutdown-Rests codecs call keeps env w
  punch-Done (some (config, s)) w rests =
      request-Rests
        (set_traverse
          (record w.1.traverse {
            traverse_config = config;
            rnat_trav_stage = record w.1.traverse.rnat_trav_stage { settings = s };
          })
          w)
        (prepare_traverse_task_async w.1.traverse.client) rests
        (prepare_traverse_task_async-idle w.1.traverse.client)

  on_start_traversal-Done :
      (v : MetaVariant J (((Unit {0} × Address) × ℕ) × ℕ)) (w : Model × App J S)
      → Rests w.1
      → Whenever Done (on_start_traversal codecs call env v w)
  on_start_traversal-Done v w rests =
      if-both (Whenever (λ (r : Error × (Model × App J S)). Done r)) (failed v.error) _ _
        (λ _. rests)
        (Whenever-bind (Done {J = J} {S = S})
          (traversal_config w.0.client_meta_data.nat_type v.values.0.0.1 v.values.0.1 v.values.1
            w.1.traverse.cone_local_port w.1.traverse.rnat_trav_stage.settings)
          (λ config. some (punch codecs call env config w)) (λ config _. punch-Done config w rests))

  on_result-Done :
      (r : Result × Error) (w : Model × App J S)
      → Rests w.1
      → Whenever Done (on_result codecs call env r w)
  on_result-Done (r, err) w rests =
      if-both (Whenever (λ (r : Error × (Model × App J S)). Done r)) (failed err) _ _ (λ _. rests)
        (ask_server-Done codecs call keeps env (result_package codecs call env w.0 w.1.traverse r)
          (set_step connected w) (λ e. cc e))

  on_timer_over-Done : (w : Model × App J S) → Rests w.1 → Done (on_timer_over codecs call env w)
  on_timer_over-Done w rests =
      if-both (λ (r : Error × (Model × App J S)). Done r)
        (is_empty w.1.traverse.join_info.merged_lobby.joined) _ _ (λ _. rests)
        (confirm-Done codecs call keeps env w.1.traverse.join_info.merged_lobby w rests)

  on_transaction-Done :
      (t : Transaction) (pkg : DataPackage J) (w : Model × App J S)
      → Rests w.1
      → Whenever Done (on_transaction codecs call env t pkg w)
  on_transaction-Done Transaction.client_connected pkg w rests =
      ask_server-Done codecs call keeps env
        (add_text codecs.formats
            (create_bare codecs.formats.wire.json Transaction.server_get_collection)
            MetaDataField.db_name w.0.app_config.mongo.db_name
          >>= λ p.
              add_text codecs.formats p MetaDataField.coll_name
                w.0.app_config.mongo.coll_traverse_config)
        w rests
  on_transaction-Done Transaction.client_receive_collection pkg w rests =
      on_collection-Done codecs call keeps env (get_object codecs.config pkg w.1.traverse.config) w
        rests
  on_transaction-Done Transaction.client_receive_nat_type pkg w rests =
      Whenever-bind (Done {J = J} {S = S})
        (get codecs.formats.wire.json codecs.nat_type (start codecs.formats.wire.json pkg)
          MetaDataField.nat_type)
        (λ res. some (on_nat_type codecs call env res w))
        (λ res e. on_nat_type-Done codecs call keeps env res w rests)
  on_transaction-Done Transaction.client_receive_traceroute pkg w rests =
      on_traceroute-Done codecs call keeps env (get_object codecs.meta_data pkg blank_ip_meta_data)
        w rests
  on_transaction-Done Transaction.client_receive_lobbies pkg w rests =
      on_lobbies-Done codecs call keeps env (get_object codecs.lobbies pkg w.1.traverse.all_lobbies)
        w rests
  on_transaction-Done Transaction.client_confirm_join_lobby pkg w rests =
      on_confirm_join_lobby-Done codecs call keeps env
        (get_object codecs.formats.lobby pkg w.1.traverse.join_info.merged_lobby) w rests
  on_transaction-Done Transaction.client_start_analyze_nat pkg w rests =
      on_start_analyze-Done w rests
  on_transaction-Done Transaction.client_receive_collected_ports pkg w rests =
      on_collected_ports-Done (get_object codecs.ports pkg w.1.traverse.analyze_results) w rests
  on_transaction-Done Transaction.client_start_traversal pkg w rests =
      Whenever-bind (Done {J = J} {S = S}) (traversal_data codecs call env pkg)
        (λ v. on_start_traversal codecs call env v w) (λ v e. on_start_traversal-Done v w rests)
  on_transaction-Done Transaction.client_traversal_result pkg w rests =
      on_result-Done (get_object codecs.result pkg blank_result) w rests
  on_transaction-Done Transaction.client_upload_success pkg w rests = λ _ e.
      timed-IsIdle w.1.traverse.client env.now w.1.traverse.config.delay_collection_steps_ms
        (rests e)
  on_transaction-Done Transaction.client_timer_over pkg w rests = on_timer_over-Done w rests
  on_transaction-Done _ pkg w rests = λ _. rests

  handle_transaction-Rests :
      (pkg : DataPackage J) (w : Model × App J S)
      → Rests w.1
      → Whenever (λ u. Rests u.1) (handle_transaction codecs call env pkg w)
  unfolding handle_transaction
  handle_transaction-Rests pkg w rests =
      conclude-Whenever (λ (u : Model × App J S). Rests u.1) (λ err. shutdown codecs call env)
        (on_transaction codecs call env pkg.transaction pkg w)
        (on_transaction-Done pkg.transaction pkg w rests)
        (λ err u e. shutdown-Rests codecs call keeps env u)

  on_published-Rests :
      (t : Transaction) (pkg : DataPackage J) (w : Model × App J S)
      → Rests w.1
      → Whenever (λ u. Rests u.1) (on_published codecs call env t pkg w)
  on_published-Rests Transaction.error pkg w rests = shutdown-Rests codecs call keeps env w
  on_published-Rests _ pkg w rests = handle_transaction-Rests pkg w rests

  on_packages-Rests :
      (pkgs : List (DataPackage J)) (w : Model × App J S)
      → Rests w.1
      → Whenever (λ u. Rests u.1) (on_packages codecs call env pkgs w)
  unfolding on_packages
  on_packages-Rests [] w rests = rests
  on_packages-Rests (pkg ∷ pkgs) w rests =
      Whenever-step (λ (u : Model × App J S). Rests u.1)
        (on_published codecs call env (marked pkg).transaction (marked pkg) w)
        (λ u. on_packages codecs call env pkgs u)
        (on_published-Rests (marked pkg).transaction (marked pkg) w rests)
        (λ u r. on_packages-Rests pkgs u r)

  after_update-Rests :
      (s : Step) (w : Model × App J S) → Rests w.1 → Rests (after_update codecs call env s w).1
  after_update-Rests disconnected w rests = try_switch_glob_state-keeps Rests call keeps w rests
  after_update-Rests connected w rests = try_switch_glob_state-keeps Rests call keeps w rests
  after_update-Rests _ w rests = rests

  update-Rests :
      (pkgs : List (DataPackage J)) (w : Model × App J S)
      → Rests w.1
      → Whenever (λ u. Rests u.1) (update codecs call env pkgs w)
  unfolding update
  update-Rests pkgs w rests =
      Whenever-step (λ (u : Model × App J S). Rests u.1) (on_packages codecs call env pkgs w)
        (λ u. some (after_update codecs call env u.1.traverse.current u))
        (on_packages-Rests pkgs w rests) (λ u r. after_update-Rests u.1.traverse.current u r)

-- What the app asks of this part: to start and to end, a frame with the packages that
-- `client.Update` publishes, the time that a frame took, to join a session, to close the window in
-- which a user is asked to join with or without the user's consent.
pub data Act (J : Type 0) : Type 0 where
  enter leave cancel : Act J
  update_with : List (DataPackage J) → Act J
  frame : ℕ → Act J
  join_session : ℕ → Act J
  accept : Lobby J → Act J

module _ {J S : Type 0} (codecs : Codecs J)
    (call : ℕ → Argument J → Model × App J S → Model × App J S) where
  abbrev pub act : Surroundings → Act J → Model × App J S → Option (Model × App J S)
  act env enter w = some (start_draw codecs call env w)
  act env leave w = some (end_draw codecs call env w)
  act env cancel w = some (shutdown codecs call env w)
  act env (update_with pkgs) w = update codecs call env pkgs w
  act env (frame time) w = some (on_frame_time codecs call env time w)
  act env (join_session session) w = join codecs call env session w
  act env (accept l) w = some (on_join_lobby_accept codecs call env l w)

  unfoldable pub run_traversal :
      List (Surroundings × Act J) → Model × App J S → Option (Model × App J S)
  run_traversal [] w = some w
  run_traversal ((env, a) ∷ rest) w = act env a w >>= λ u. run_traversal rest u

module _ {J S : Type 0} (codecs : Codecs J)
    (call : ℕ → Argument J → Model × App J S → Model × App J S) (keeps : Keeps Rests call) where
  act-Rests :
      (env : Surroundings) (a : Act J) (w : Model × App J S)
      → Rests w.1
      → Whenever (λ u. Rests u.1) (act codecs call env a w)
  act-Rests env enter w rests = start_draw-Rests codecs call keeps env w rests
  act-Rests env leave w rests = end_draw-Rests codecs call keeps env w
  act-Rests env cancel w rests = shutdown-Rests codecs call keeps env w
  act-Rests env (update_with pkgs) w rests = update-Rests codecs call keeps env pkgs w rests
  act-Rests env (frame time) w rests = on_frame_time-Rests codecs call keeps env time w rests
  act-Rests env (join_session session) w rests = join-Rests codecs call keeps env session w rests
  act-Rests env (accept l) w rests = on_join_lobby_accept-Rests codecs call keeps env l w

  -- Whatever the app asks of the traversal, whatever packages come and in whatever order: if it
  -- starts without a connection in the state DISCONNECTED, then whenever it is in that state again
  -- its client has no connection, no queue and no task that runs (only its timer may be set),
  -- provided that the callbacks of the model, which may come back to the traversal, keep this too.
  -- A division by 0, a read behind a vector and exceptions of the JSON library end the run.
  pub run_traversal-Rests :
      (acts : List (Surroundings × Act J)) (w : Model × App J S)
      → Rests w.1
      → Whenever (λ u. Rests u.1) (run_traversal codecs call acts w)
  unfolding run_traversal
  run_traversal-Rests [] w rests = rests
  run_traversal-Rests ((env, a) ∷ acts) w rests =
      Whenever-step (λ (u : Model × App J S). Rests u.1) (act codecs call env a w)
        (λ u. run_traversal codecs call acts u) (act-Rests env a w rests)
        (λ u r. run_traversal-Rests acts u r)

-- ===== src/CollectSamples/Acts.antt =====
-- Any sequence of calls of AndroidSource/src/Components/GlobCollectSamples.cpp, and its timers.
use nat_data_collector.Prelude.{
  ℕ, Bool, true, false, not, ◌&&◌, Option, some, List, [], ◌∷◌, ◌>>=◌, Whenever, Whenever-bind,
  Whenever-step, if-both, ltb,
}
use nat_data_collector.Types.{Transaction, MetaDataField}
use nat_data_collector.Errors.{no_error}
use nat_data_collector.Protocol.{DataPackage, create_bare, get, start}
use nat_data_collector.Model.{Model, Argument, try_switch_glob_state}
use nat_data_collector.Model.Keeps.{Keeps, try_switch_glob_state-keeps}
use nat_data_collector.Client.{failure}
use nat_data_collector.Client.Publishing.{marked, timer_over}
use nat_data_collector.Client.Idle.{conclude-Whenever, timed-IsIdle, stopped-IsIdle}
use nat_data_collector.CollectSamples.{
  Step, disconnected, connected_idle, connect_no_interrupt, App, Codecs, Surroundings, set_client,
  is_disconnected, shutdown, on_frame_time, start_glob_state, end_glob_state, on_nat_type,
  on_timer_over, on_transaction, on_transaction_event, on_published, on_package, on_timer,
  wrong_connection, Published, publish_one, publish_all, shutdown_if, after_update,
  update_glob_state,
}
use nat_data_collector.CollectSamples.Quiet.{
  Rests, shutdown-Rests, start_at-Rests, Done, start_task-Done, on_nat_type-Done,
  on_traceroute-Done, on_collection-Done, on_collected_ports-Done,
}

module _ {J S : Type 0} (codecs : Codecs J) (env : Surroundings) where
  on_timer_over-Done :
      (s : Step) (w : Model × App J S) → Rests w.1 → Done (on_timer_over codecs env s w)
  unfolding start_glob_state
  on_timer_over-Done disconnected w rests = λ _. start_at-Rests w.1.collect.current env w rests
  on_timer_over-Done connected_idle w rests = λ _ e. cc e
  on_timer_over-Done connect_no_interrupt w rests = λ _ e. cc e

  on_transaction-Done :
      (t : Transaction) (pkg : DataPackage J) (w : Model × App J S)
      → Rests w.1
      → Whenever Done (on_transaction codecs env t pkg w)
  on_transaction-Done Transaction.client_connected pkg w rests = start_task-Done codecs env w rests
  on_transaction-Done Transaction.client_receive_nat_type pkg w rests =
      Whenever-bind (Done {J = J} {S = S})
        (get codecs.formats.wire.json codecs.nat_type (start codecs.formats.wire.json pkg)
          MetaDataField.nat_type)
        (λ res. some (on_nat_type codecs env res w))
        (λ res _. on_nat_type-Done codecs env res w rests)
  on_transaction-Done Transaction.client_receive_traceroute pkg w rests =
      on_traceroute-Done codecs env _ w rests
  on_transaction-Done Transaction.client_receive_collection pkg w rests =
      on_collection-Done codecs env _ w rests
  on_transaction-Done Transaction.client_receive_collected_ports pkg w rests =
      on_collected_ports-Done codecs env _ w rests
  on_transaction-Done Transaction.client_upload_success pkg w rests = λ _ e. cc e
  on_transaction-Done Transaction.client_timer_over pkg w rests =
      on_timer_over-Done w.1.collect.current w rests
  on_transaction-Done _ pkg w rests = λ _. rests

  on_transaction_event-Rests :
      (pkg : DataPackage J) (w : Model × App J S)
      → Rests w.1
      → Whenever (λ u. Rests u.1) (on_transaction_event codecs env pkg w)
  unfolding on_transaction_event
  on_transaction_event-Rests pkg w rests =
      conclude-Whenever (λ (u : Model × App J S). Rests u.1) (shutdown env)
        (on_transaction codecs env pkg.transaction pkg w)
        (on_transaction-Done pkg.transaction pkg w rests) (λ err u bad. shutdown-Rests env err u)

  on_published-Rests :
      (t : Transaction) (pkg : DataPackage J) (w : Model × App J S)
      → Rests w.1
      → Whenever (λ u. Rests u.1) (on_published codecs env t pkg w)
  on_published-Rests Transaction.error pkg w rests = shutdown-Rests env pkg.error w
  on_published-Rests _ pkg w rests = on_transaction_event-Rests pkg w rests

  on_package-Rests :
      (pkg : DataPackage J) (w : Model × App J S)
      → Rests w.1
      → Whenever (λ u. Rests u.1) (on_package codecs env pkg w)
  unfolding on_package
  on_package-Rests pkg w rests = on_published-Rests (marked pkg).transaction (marked pkg) w rests

  on_timer-Rests :
      (w : Model × App J S) → Rests w.1 → Whenever (λ u. Rests u.1) (on_timer codecs env w)
  unfolding on_timer
  on_timer-Rests w rests =
      let pkg = create_bare codecs.formats.wire.json Transaction.client_timer_over in
      Whenever-step (λ (u : Model × App J S). Rests u.1) (on_package codecs env pkg w)
        (λ u. some (set_client (timer_over u.1.collect.client) u)) (on_package-Rests pkg w rests)
        (λ u r e. stopped-IsIdle u.1.collect.client (r e))

module _ {J S : Type 0} (codecs : Codecs J)
    (call : ℕ → Argument J → Model × App J S → Model × App J S) (keeps : Keeps Rests call)
    (env : Surroundings) where
  publish_one-Rests :
      (p : Published J) (w : Model × App J S)
      → Rests w.1
      → Whenever (λ u. Rests u.1) (publish_one codecs call env p w)
  publish_one-Rests (Published.came pkg) w rests = on_package-Rests codecs env pkg w rests
  publish_one-Rests Published.timer w rests = on_timer-Rests codecs env w rests

  publish_all-Rests :
      (ps : List (Published J)) (w : Model × App J S)
      → Rests w.1
      → Whenever (λ u. Rests u.1) (publish_all codecs call env ps w)
  unfolding publish_all
  publish_all-Rests [] w rests = rests
  publish_all-Rests (p ∷ ps) w rests =
      Whenever-step (λ (u : Model × App J S). Rests u.1) (publish_one codecs call env p w)
        (λ u. publish_all codecs call env ps u) (publish_one-Rests p w rests)
        (λ u r. publish_all-Rests ps u r)

  shutdown_if-Rests :
      (r : Bool × (Model × App J S)) → Rests r.1.1 → Rests (shutdown_if codecs call env r).1
  shutdown_if-Rests (true, w) rests = shutdown-Rests env no_error w
  shutdown_if-Rests (false, w) rests = rests

  after_update-Rests :
      (s : Step) (w : Model × App J S) → Rests w.1 → Rests (after_update codecs call env s w).1
  after_update-Rests disconnected w rests = try_switch_glob_state-keeps Rests call keeps w rests
  after_update-Rests connected_idle w rests =
      shutdown_if-Rests (try_switch_glob_state call w)
        (try_switch_glob_state-keeps Rests call keeps w rests)
  after_update-Rests connect_no_interrupt w rests =
      if-both (λ (u : Model × App J S). Rests u.1) (wrong_connection env.connect_type w.0) _ _
        (shutdown-Rests env _ w) rests

  update_glob_state-Rests :
      (ps : List (Published J)) (w : Model × App J S)
      → Rests w.1
      → Whenever (λ u. Rests u.1) (update_glob_state codecs call env ps w)
  unfolding update_glob_state
  update_glob_state-Rests ps w rests =
      Whenever-step (λ (u : Model × App J S). Rests u.1) (publish_all codecs call env ps w)
        (λ u. some (after_update codecs call env u.1.collect.current u))
        (publish_all-Rests ps w rests) (λ u r. after_update-Rests u.1.collect.current u r)

-- What the app asks of this part: to start and to end, a frame with what `client.Update` publishes,
-- and the time that a frame took.
pub data Act (J : Type 0) : Type 0 where
  enter leave : Act J
  update : List (Published J) → Act J
  frame : ℕ → Act J

module _ {J S : Type 0} (codecs : Codecs J)
    (call : ℕ → Argument J → Model × App J S → Model × App J S) where
  abbrev pub act : Surroundings → Act J → Model × App J S → Option (Model × App J S)
  act env enter w = some (start_glob_state env w)
  act env leave w = some (end_glob_state env w)
  act env (update ps) w = update_glob_state codecs call env ps w
  act env (frame time) w = some (on_frame_time env time w)

  unfoldable pub run_collection :
      List (Surroundings × Act J) → Model × App J S → Option (Model × App J S)
  run_collection [] w = some w
  run_collection ((env, a) ∷ rest) w = act env a w >>= λ u. run_collection rest u

module _ {J S : Type 0} (codecs : Codecs J)
    (call : ℕ → Argument J → Model × App J S → Model × App J S) (keeps : Keeps Rests call) where
  act-Rests :
      (env : Surroundings) (a : Act J) (w : Model × App J S)
      → Rests w.1
      → Whenever (λ u. Rests u.1) (act codecs call env a w)
  unfolding start_glob_state end_glob_state on_frame_time
  act-Rests env enter w rests = start_at-Rests w.1.collect.current env w rests
  act-Rests env leave w rests = shutdown-Rests env no_error w
  act-Rests env (update ps) w rests = update_glob_state-Rests codecs call keeps env ps w rests
  act-Rests env (frame time) w rests =
      let failed_frame = failure "Frame time is above 5 sec, app is sleeping.Abort .." in
      if-both (λ (u : Model × App J S). Rests u.1)
        (ltb 5000 time && not (is_disconnected w.1.collect.current)) _ _
        (λ e. timed-IsIdle _ env.now _ (shutdown-Rests env failed_frame w e)) rests

  -- Whatever the app asks of the collection of samples, whatever packages come and in whatever
  -- order: if it starts without a connection in the state DISCONNECTED, then whenever it is in that
  -- state again its client has no connection, no queue and no task that runs (only its timer may
  -- be set), provided that the callbacks of the model, which may come back to the collection, keep
  -- this too. Exceptions of the JSON library end the run.
  pub run_collection-Rests :
      (acts : List (Surroundings × Act J)) (w : Model × App J S)
      → Rests w.1
      → Whenever (λ u. Rests u.1) (run_collection codecs call acts w)
  unfolding run_collection
  run_collection-Rests [] w rests = rests
  run_collection-Rests ((env, a) ∷ acts) w rests =
      Whenever-step (λ (u : Model × App J S). Rests u.1) (act codecs call env a w)
        (λ u. run_collection codecs call acts u) (act-Rests env a w rests)
        (λ u r. run_collection-Rests acts u r)

-- ===== src/CollectSamples/Quiet.antt =====
-- What every step of AndroidSource/src/Components/GlobCollectSamples.cpp keeps, and its timers.
use nat_data_collector.Prelude.{
  ℕ, ◌≡◌, Bool, true, false, not, ◌&&◌, Option, none, some, Whenever, Whenever-bind, Whenever-at,
  if-both,
}
use nat_data_collector.Types.{NatType, is_random_sym}
use nat_data_collector.Errors.{Error, failed}
use nat_data_collector.Protocol.{DataPackage, MetaVariant}
use nat_data_collector.Data.{IpMetaData, MultiAddressVector}
use nat_data_collector.Model.{Model, set_client_meta_data}
use nat_data_collector.Client.{Client}
use nat_data_collector.Client.Requests.{server_transaction_async, upload_to_mongo_db_async}
use nat_data_collector.Client.Tasks.{prepare_collect_task_async}
use nat_data_collector.Client.Idle.{
  IsIdle, disconnect-IsIdle, server_transaction_async-idle, prepare_collect_task_async-idle,
  upload_to_mongo_db_async-idle, timed-IsIdle, IsRefused,
}
use nat_data_collector.CollectPlan.{CollectingConfig}
use nat_data_collector.CollectPlan.Stages.{calculate_collect_stages}
use nat_data_collector.CollectSamples.{
  Step, disconnected, connected_idle, connect_no_interrupt, CollectSamples, App, Codecs,
  Surroundings, set_client, set_collect, is_disconnected, shutdown, retry_later, start_at,
  start_task, with_nat_type, on_nat_type, collect_ports, ask_server, on_traceroute, with_config,
  on_collection, upload, sample_of, on_collected_ports,
}

-- In the state DISCONNECTED there is no connection, no task and no queue; a timer may be set.
abbrev pub IsQuiet : {J : Type 0} → CollectSamples J → Type 0
IsQuiet c = is_disconnected c.current ≡ true → IsIdle c.client

abbrev pub Rests : {J S : Type 0} → App J S → Type 0
Rests a = IsQuiet a.collect

pub retry_later-IsIdle : (b : Bool) (now : ℕ) (c : Client) → IsIdle c → IsIdle (retry_later b now c)
retry_later-IsIdle true now c idle = timed-IsIdle c now 300000 idle
retry_later-IsIdle false now c idle = idle

pub shutdown-Rests :
    {J S : Type 0} (env : Surroundings) (err : Error) (w : Model × App J S)
    → Rests (shutdown env err w).1
unfolding shutdown
shutdown-Rests env err w e =
    retry_later-IsIdle (failed err) env.now _ (disconnect-IsIdle w.1.collect.client env.ends)

-- A client that has made a request was not idle.
pub request-Rests :
    {J S : Type 0} (w : Model × App J S) (r : Error × Client)
    → Rests w.1
    → (IsIdle w.1.collect.client → failed r.0 ≡ true)
    → failed r.0 ≡ false
    → Rests (set_client r.1 w).1
request-Rests w r rests refused fine e = absurd (cc (refused (rests e), fine))

-- The work of a handler, as far as it ends without an error.
abbrev pub Done : {J S : Type 0} → Error × (Model × App J S) → Type 0
Done r = failed r.0 ≡ false → Rests r.1.1

module _ {J S : Type 0} (codecs : Codecs J) (env : Surroundings) where
  pub start_task-Done : (w : Model × App J S) → Rests w.1 → Done (start_task codecs env w)
  start_task-Done w rests =
      request-Rests w (prepare_collect_task_async w.1.collect.client) rests
        (prepare_collect_task_async-idle w.1.collect.client)

  with_nat_type-Done :
      (t : NatType) (w : Model × App J S) → Rests w.1 → Done (with_nat_type codecs env t w)
  with_nat_type-Done t (m, a) rests =
      if-both (λ (r : Error × (Model × App J S)). Done r)
        (m.app_config.app.random_nat_required && not (is_random_sym t)) _ _ (λ _ e. cc e)
        (λ _ e. cc e)

  pub on_nat_type-Done :
      (res : MetaVariant J (Unit {0} × NatType)) (w : Model × App J S)
      → Rests w.1
      → Done (on_nat_type codecs env res w)
  on_nat_type-Done res w rests =
      if-both (λ (r : Error × (Model × App J S)). Done r) (failed res.error) _ _ (λ _. rests)
        (with_nat_type-Done res.values.1 w rests)

  collect_ports-Done :
      (w : Model × App J S) → Rests w.1 → Whenever Done (collect_ports codecs env w)
  collect_ports-Done w rests =
      Whenever-bind (Done {J = J} {S = S})
        (calculate_collect_stages codecs.objects env.rand_max env.random
          w.0.app_config.server_address w.1.collect.config w.0.client_meta_data)
        _ (λ stages _. start_task-Done w rests)

  ask_server-Done :
      (request : Option (DataPackage J)) (w : Model × App J S)
      → Rests w.1
      → Whenever Done (ask_server codecs env request w)
  ask_server-Done none w rests = tt
  ask_server-Done (some pkg) w rests =
      request-Rests w (server_transaction_async codecs.formats w.1.collect.client pkg) rests
        (server_transaction_async-idle codecs.formats w.1.collect.client pkg)

  pub on_traceroute-Done :
      (r : IpMetaData × Error) (w : Model × App J S)
      → Rests w.1
      → Whenever Done (on_traceroute codecs env r w)
  on_traceroute-Done (info, err) (m, a) rests =
      if-both (Whenever (λ (r : Error × (Model × App J S)). Done r)) (failed err) _ _ (λ _. rests)
        (if-both (Whenever (λ (r : Error × (Model × App J S)). Done r))
          m.app_config.app.use_debug_collect_config _ _
          (collect_ports-Done
            (with_config codecs env codecs.debug_config (set_client_meta_data m info, a)) rests)
          (ask_server-Done _ (set_client_meta_data m info, a) rests))

  pub on_collection-Done :
      (r : CollectingConfig J × Error) (w : Model × App J S)
      → Rests w.1
      → Whenever Done (on_collection codecs env r w)
  on_collection-Done (config, err) w rests =
      if-both (Whenever (λ (r : Error × (Model × App J S)). Done r)) (failed err) _ _ (λ _. rests)
        (collect_ports-Done (with_config codecs env config w) rests)

  upload-Done : (w : Model × App J S) → Rests w.1 → Whenever Done (upload codecs env w)
  upload-Done w rests =
      let c = w.1.collect in
      let sample = sample_of env.connect_type w.0 c in
      let mongo = w.0.app_config.mongo in
      Whenever-bind (Done {J = J} {S = S})
        (upload_to_mongo_db_async codecs.formats c.client codecs.sample sample mongo.db_name
          c.config.coll_name mongo.coll_users_name w.0.client_meta_data.android_id)
        _
        (λ r e. request-Rests w r rests (λ idle.
          Whenever-at IsRefused _
            (upload_to_mongo_db_async-idle codecs.formats c.client idle codecs.sample sample
              mongo.db_name c.config.coll_name mongo.coll_users_name
              w.0.client_meta_data.android_id)
            e))

  pub on_collected_ports-Done :
      (r : MultiAddressVector × Error) (w : Model × App J S)
      → Rests w.1
      → Whenever Done (on_collected_ports codecs env r w)
  on_collected_ports-Done (ports, err) w rests =
      if-both (Whenever (λ (r : Error × (Model × App J S)). Done r)) (failed err) _ _ (λ _. rests)
        (upload-Done (set_collect (record w.1.collect { analyze_collect_ports = ports }) w) rests)

pub start_at-Rests :
    {J S : Type 0} (s : Step) (env : Surroundings) (w : Model × App J S)
    → Rests w.1
    → Rests (start_at s env w).1
start_at-Rests disconnected env w rests = λ e. cc e
start_at-Rests connected_idle env w rests = rests
start_at-Rests connect_no_interrupt env w rests = rests

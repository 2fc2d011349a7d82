-- ===== src/Client/Tasks.antt =====
-- The tasks of the client that run beside it: AndroidSource/src/Components/NatTraverserClient.cpp. A task
-- is started by one operation and ends by another, with the package that it has made.
use nat_data_collector.Prelude.{
  ℕ, String, false, not, Option, none, some, List, if◌then◌else◌, is_some,
}
use nat_data_collector.Types.{Transaction}
use nat_data_collector.Errors.{Error, no_error}
use nat_data_collector.Json.{Codec}
use nat_data_collector.Protocol.{DataPackage, create_error, create_data, create_bare}
use nat_data_collector.Framing.Package.{Wire, compress}
use nat_data_collector.Data.{Address}
use nat_data_collector.Timer.{expires_from_now}
use nat_data_collector.Client.{
  Client, Queue, Future, running, ready, valid, failure, push, push_package,
}

-- What `prepare_collect_task_async` and `prepare_traverse_task_async` ask for.
abbrev pub refusal : Client → Future → String → String → String → Option Error
refusal c future busy no_queue no_flag =
    if valid future
    then some (failure busy)
    else if not (is_some c.read_queue)
    then some (failure no_queue)
    else if not (is_some c.shutdown_flag)
    then some (failure no_flag)
    else none

abbrev pub start_unless : Option Error → Client → Client → Error × Client
start_unless none c started = (no_error, started)
start_unless (some err) c started = (err, c)

-- `prepare_collect_task_async`; `PredictPortAsync_Internal` asks for the same.
unfoldable pub prepare_collect_task_async : Client → Error × Client
prepare_collect_task_async c =
    start_unless
      (refusal c c.analyze_nat_future "Please wait until previous analyze NAT call has finished"
        "Read queue is invalid, can not push result on analyze NAT"
        "shutdown flag is invalid, abort")
      c (record c { analyze_nat_future = running })

-- `prepare_traverse_task_async`.
unfoldable pub prepare_traverse_task_async : Client → Error × Client
prepare_traverse_task_async c =
    start_unless
      (refusal c c.traverse_nat_future "Please wait until previous traverse NAT call has finished"
        "Read queue is invalid, can not push result on traverse NAT"
        "shutdown flag is invalid, abort")
      c (record c { traverse_nat_future = running })

-- `prepare_http_task_async`, which does not ask for the flag.
unfoldable pub prepare_http_task_async : Client → Error × Client
prepare_http_task_async c =
    if valid c.http_future
    then (failure "Please wait until previous analyze NAT call has finished", c)
    else if not (is_some c.read_queue)
    then (failure "Read queue is invalid, can not push result on analyze NAT", c)
    else (no_error, record c { http_future = running })

-- `CreateTimerAsync`.
unfoldable pub create_timer_async : Client → ℕ → ℕ → Client
unfolding expires_from_now
create_timer_async c now duration_ms = record c { timer = expires_from_now now duration_ms }

abbrev pub executed : Queue → Option (List ℕ) → Error × Option Queue
executed q (some buf) = (no_error, some (push q buf))
executed q none = (failure "Failed to compress collect task response", some q)

module _ {J : Type 0} (wire : Wire J) where
  -- The end of `execute_task_async`, once `cb` has given its package.
  unfoldable pub execute_task_async : DataPackage J → Option Queue → Error × Option Queue
  unfolding compress
  execute_task_async result_pkg none =
      (failure "read queue is invalid during analyze nat, abort", none)
  execute_task_async result_pkg (some q) = executed q (compress wire false result_pkg)

  -- The package of `PredictPortAsync_Internal`, for what the predictor gives.
  abbrev pub prediction_package : Codec J Address → Option Address → DataPackage J
  prediction_package codec (some a) =
      create_data wire.json codec a Transaction.client_receive_prediction
  prediction_package codec none =
      create_error wire.json (failure "Predictor failed to perform a prediction")

  unfoldable pub predicted_port :
      Codec J Address → Option Address → Option Queue → Error × Option Queue
  unfolding push_package create_data create_error
  predicted_port codec res q = push_package wire q (prediction_package codec res) false

  -- The end of a task, which leaves its result in its future.
  unfoldable pub collect_ends : Client → DataPackage J → Client
  unfolding execute_task_async
  collect_ends c pkg =
      let r = execute_task_async pkg c.read_queue in
      record c { read_queue = r.1; analyze_nat_future = ready r.0 }

  unfoldable pub traverse_ends : Client → DataPackage J → Client
  unfolding execute_task_async
  traverse_ends c pkg =
      let r = execute_task_async pkg c.read_queue in
      record c { read_queue = r.1; traverse_nat_future = ready r.0 }

  unfoldable pub http_ends : Client → DataPackage J → Client
  unfolding execute_task_async
  http_ends c pkg =
      let r = execute_task_async pkg c.read_queue in
      record c { read_queue = r.1; http_future = ready r.0 }

  unfoldable pub prediction_ends : Client → Codec J Address → Option Address → Client
  unfolding predicted_port
  prediction_ends c codec res =
      let r = predicted_port codec res c.read_queue in
      record c { read_queue = r.1; analyze_nat_future = ready r.0 }

  -- `connect_internal` once it is connected: the first package for the client itself.
  unfoldable pub connected : Client → Client
  unfolding push_package create_bare
  connected c =
      let r =
        push_package wire c.read_queue (create_bare wire.json Transaction.client_connected) false in
      record c { read_queue = r.1 }

-- The end of the connection, with the error of the io context or of the shutdown.
abbrev pub connection_ends : Client → Error → Client
connection_ends c err = record c { rw_future = ready err }

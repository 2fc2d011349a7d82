-- ===== src/Client/Ready.antt =====
-- What every sequence of operations of AndroidSource/src/Components/NatTraverserClient.cpp keeps.
pub mod Updates
pub mod Acts
use nat_data_collector.Prelude.{
  ℕ, Bool, true, false, not, Option, none, some, List, [], ◌∷◌, String, ◌≡◌, refl, sym, ◌∙◌, ap,
  is_some, if◌then◌else◌, if-both, ◌&&◌,
}
use nat_data_collector.Prelude.OrderedMap.{find}
use nat_data_collector.Types.{Transaction, transaction_code}
use nat_data_collector.Errors.{Error, failed}
use nat_data_collector.Protocol.{DataPackage, create_error, create_bare}
use nat_data_collector.Framing.Package.{Wire, compress, decompress}
use nat_data_collector.Timer.{has_expired}
use nat_data_collector.Json.{Codec}
use nat_data_collector.Data.{Address}
use nat_data_collector.Client.{
  Client, Future, Queue, Ends, invalid, running, ready, valid, goes_on, new_client, connect_async,
  disconnect, subscribe, push_package, pushed, push_error, try_pop, push,
}
use nat_data_collector.Client.Tasks.{
  start_unless, prepare_collect_task_async, prepare_traverse_task_async, prepare_http_task_async,
  collect_ends, traverse_ends, http_ends, execute_task_async, executed, create_timer_async,
  prediction_ends, predicted_port, prediction_package, connected, connection_ends,
}
use nat_data_collector.Client.Publishing.{
  call_all, call_some, marked, publish_transaction, publish_result, take_result, take_results,
  timer_over, check_timer, publish_first, read_package, update,
}

-- A future has a task or a result only while there is a queue for it.
abbrev pub Served : Bool → Future → Type 0
Served has_queue future = valid future ≡ true → has_queue ≡ true

pub record AllServed (has_queue : Bool) (rw analyze traverse http : Future) : Type 0 where
  pub rw_served : Served has_queue rw
  pub analyze_served : Served has_queue analyze
  pub traverse_served : Served has_queue traverse
  pub http_served : Served has_queue http

abbrev pub IsServed : Client → Type 0
IsServed c =
    AllServed (is_some c.read_queue) c.rw_future c.analyze_nat_future c.traverse_nat_future
      c.http_future

-- With a queue every future is served.
pub with_queue : (rw analyze traverse http : Future) → AllServed true rw analyze traverse http
with_queue rw analyze traverse http = record {
  rw_served = λ e. refl;
  analyze_served = λ e. refl;
  traverse_served = λ e. refl;
  http_served = λ e. refl;
}

queue-is_true :
    (b : Bool) (rw analyze traverse http : Future) → b ≡ true → AllServed b rw analyze traverse http
queue-is_true true rw analyze traverse http e = with_queue rw analyze traverse http
queue-is_true false rw analyze traverse http e = cc e

pub unserved : (b : Bool) → Served b invalid
unserved b e = cc e

pub disconnect-IsServed : (c : Client) (ends : Ends) → IsServed (disconnect c ends).1
unfolding disconnect
disconnect-IsServed c ends = record {
  rw_served = unserved false;
  analyze_served = unserved false;
  traverse_served = unserved false;
  http_served = unserved false;
}

abbrev pub Second : Error × Client → Type 0
Second r = IsServed r.1

pub connect_async-IsServed : (c : Client) (ends : Ends) → IsServed c → Second (connect_async c ends)
unfolding connect_async
connect_async-IsServed c ends s =
    if-both Second (is_some c.write_queue && is_some c.read_queue && goes_on c.shutdown_flag) _ _ s
      (with_queue running invalid invalid invalid)

start_unless-IsServed :
    (c started : Client) (busy queue flag : Bool) (x y z : Error)
    → IsServed c
    → (queue ≡ true → IsServed started)
    → Second (
        start_unless
          (if busy then some x else if not queue then some y else if not flag then some z else none)
          c
          started)
start_unless-IsServed c started true queue flag x y z s k = s
start_unless-IsServed c started false false flag x y z s k = s
start_unless-IsServed c started false true false x y z s k = s
start_unless-IsServed c started false true true x y z s k = k refl

pub prepare_collect_task_async-IsServed :
    (c : Client) → IsServed c → Second (prepare_collect_task_async c)
unfolding prepare_collect_task_async
prepare_collect_task_async-IsServed c s =
    start_unless-IsServed c (record c { analyze_nat_future = running }) (valid c.analyze_nat_future)
      (is_some c.read_queue) (is_some c.shutdown_flag) _ _ _ s
      (queue-is_true (is_some c.read_queue) c.rw_future running c.traverse_nat_future c.http_future)

pub prepare_traverse_task_async-IsServed :
    (c : Client) → IsServed c → Second (prepare_traverse_task_async c)
unfolding prepare_traverse_task_async
prepare_traverse_task_async-IsServed c s =
    start_unless-IsServed c (record c { traverse_nat_future = running })
      (valid c.traverse_nat_future) (is_some c.read_queue) (is_some c.shutdown_flag) _ _ _ s
      (queue-is_true (is_some c.read_queue) c.rw_future c.analyze_nat_future running c.http_future)

queue_cases :
    (c started : Client) (queue : Bool) (x y : Error)
    → IsServed c
    → (queue ≡ true → IsServed started)
    → Second (if not queue then (x, c) else (y, started))
queue_cases c started true x y s k = k refl
queue_cases c started false x y s k = s

pub prepare_http_task_async-IsServed :
    (c : Client) → IsServed c → Second (prepare_http_task_async c)
unfolding prepare_http_task_async
prepare_http_task_async-IsServed c s = if-both Second (valid c.http_future) _ _ s (
    queue_cases c (record c { http_future = running }) (is_some c.read_queue) _ _ s
      (queue-is_true (is_some c.read_queue) c.rw_future c.analyze_nat_future c.traverse_nat_future
        running))

executed-queue : (q : Queue) (o : Option (List ℕ)) → is_some (executed q o).1 ≡ true
executed-queue q none = refl
executed-queue q (some buf) = refl

module _ {J : Type 0} (wire : Wire J) where
  execute_task_async-queue :
      (pkg : DataPackage J) (q : Option Queue)
      → is_some (execute_task_async wire pkg q).1 ≡ is_some q
  unfolding execute_task_async
  execute_task_async-queue pkg none = refl
  execute_task_async-queue pkg (some q) = executed-queue q (compress wire false pkg)

  -- A task that runs, and so has a queue, ends.
  still_there :
      (c : Client) (pkg : DataPackage J) (future : Future)
      → Served (is_some c.read_queue) future
      → future ≡ running
      → is_some (execute_task_async wire pkg c.read_queue).1 ≡ true
  still_there c pkg future s e = execute_task_async-queue pkg c.read_queue ∙ s (ap valid e)

  pub collect_ends-IsServed :
      (c : Client) (pkg : DataPackage J)
      → c.analyze_nat_future ≡ running
      → IsServed c
      → IsServed (collect_ends wire c pkg)
  unfolding collect_ends
  collect_ends-IsServed c pkg e s =
      queue-is_true _ _ _ _ _ (still_there c pkg c.analyze_nat_future s.analyze_served e)

  pub traverse_ends-IsServed :
      (c : Client) (pkg : DataPackage J)
      → c.traverse_nat_future ≡ running
      → IsServed c
      → IsServed (traverse_ends wire c pkg)
  unfolding traverse_ends
  traverse_ends-IsServed c pkg e s =
      queue-is_true _ _ _ _ _ (still_there c pkg c.traverse_nat_future s.traverse_served e)

  pub http_ends-IsServed :
      (c : Client) (pkg : DataPackage J)
      → c.http_future ≡ running
      → IsServed c
      → IsServed (http_ends wire c pkg)
  unfolding http_ends
  http_ends-IsServed c pkg e s =
      queue-is_true _ _ _ _ _ (still_there c pkg c.http_future s.http_served e)

  push_package-queue :
      (q : Option Queue) (pkg : DataPackage J) (header : Bool)
      → is_some (push_package wire q pkg header).1 ≡ is_some q
  unfolding push_package
  push_package-queue none pkg header = refl
  push_package-queue (some q) pkg header = pushed-queue q (compress wire header pkg)
    where
      pushed-queue : (q : Queue) (o : Option (List ℕ)) → is_some (pushed wire q o).1 ≡ true
      pushed-queue q none = refl
      pushed-queue q (some item) = refl

  pub prediction_ends-IsServed :
      (c : Client) (codec : Codec J Address) (res : Option Address)
      → c.analyze_nat_future ≡ running
      → IsServed c
      → IsServed (prediction_ends wire c codec res)
  unfolding prediction_ends predicted_port
  prediction_ends-IsServed c codec res e s = queue-is_true _ _ _ _ _ (
      push_package-queue c.read_queue (prediction_package wire codec res) false
      ∙ s.analyze_served (ap valid e))

  pub connected-IsServed :
      (c : Client) → c.rw_future ≡ running → IsServed c → IsServed (connected wire c)
  unfolding connected
  connected-IsServed c e s = queue-is_true _ _ _ _ _ (
      push_package-queue c.read_queue (create_bare wire.json Transaction.client_connected) false
      ∙ s.rw_served (ap valid e))

pub connection_ends-IsServed :
    (c : Client) (err : Error)
    → c.rw_future ≡ running
    → IsServed c
    → IsServed (connection_ends c err)
connection_ends-IsServed c err e s = queue-is_true _ _ _ _ _ (s.rw_served (ap valid e))

-- What the connection reads goes into the read queue, which it shares with the client.
abbrev pub put_read : Option Queue → List ℕ → Option Queue
put_read none buf = none
put_read (some q) buf = some (push q buf)

put_read-queue : (q : Option Queue) (buf : List ℕ) → is_some (put_read q buf) ≡ is_some q
put_read-queue none buf = refl
put_read-queue (some q) buf = refl

pub put_read-IsServed :
    (c : Client) (buf : List ℕ)
    → c.rw_future ≡ running
    → IsServed c
    → IsServed (record c { read_queue = put_read c.read_queue buf })
put_read-IsServed c buf e s =
    queue-is_true _ _ _ _ _ (put_read-queue c.read_queue buf ∙ s.rw_served (ap valid e))

-- ===== src/Client/Ready/Acts.antt =====
-- Sequences of the operations of AndroidSource/src/Components/NatTraverserClient.cpp, in any order.
use nat_data_collector.Prelude.{ℕ, true, false, not, Option, List, [], ◌∷◌, ◌≡◌, refl, if-both}
use nat_data_collector.Types.{Transaction, transaction_code}
use nat_data_collector.Errors.{Error}
use nat_data_collector.Protocol.{DataPackage}
use nat_data_collector.Client.{
  new_client, subscribe, subscribe_one, push_package, connect_async, disconnect, Client, Future,
  Queue, Ends, invalid, running, ready, valid, new_client, connect_async, disconnect, subscribe,
  push_package,
}
use nat_data_collector.Client.Tasks.{
  create_timer_async, prepare_collect_task_async, prepare_traverse_task_async,
  prepare_http_task_async, collect_ends, traverse_ends, http_ends, connected, connection_ends,
  prediction_ends,
}
use nat_data_collector.Data.{Address}
use nat_data_collector.Client.Publishing.{update}
use nat_data_collector.Client.Requests.{Formats, server_transaction_async, with_write_queue}
use nat_data_collector.Client.Ready.{
  IsServed, unserved, Second, disconnect-IsServed, connect_async-IsServed,
  prepare_collect_task_async-IsServed, prepare_traverse_task_async-IsServed,
  prepare_http_task_async-IsServed, collect_ends-IsServed, traverse_ends-IsServed,
  http_ends-IsServed, connected-IsServed, connection_ends-IsServed, prediction_ends-IsServed,
  put_read, put_read-IsServed,
}
use nat_data_collector.Client.Publishing.{update}
use nat_data_collector.Client.Ready.Updates.{update-IsServed}

-- What happens to a client: its operations, the start of the connection with its first package, what
-- the connection reads, and the ends of the connection and of the tasks. A task that collects
-- addresses and one that predicts a port start alike.
pub data Act (J : Type 0) : Type 0 where
  connects disconnects : Ends → Act J
  subscribes : List Transaction → ℕ → Act J
  sends : DataPackage J → Act J
  collects predicts traverses asks_http : Act J
  connection_made : Act J
  reads : List ℕ → Act J
  connection_done : Error → Act J
  prediction_done : Option Address → Act J
  collect_done traverse_done http_done : DataPackage J → Act J
  sets_timer : ℕ → ℕ → Act J
  updates : ℕ → Act J

-- Only a task that runs ends.
abbrev pub when_running : Future → Client → Client → Client
when_running running c d = d
when_running invalid c d = c
when_running (ready e) c d = c

module _ {J : Type 0} (formats : Formats J) (call : ℕ → DataPackage J → Client → Client) where
  abbrev pub act : Client → Act J → Client
  act c (connects ends) = (connect_async c ends).1
  act c (disconnects ends) = (disconnect c ends).1
  act c (subscribes ts cb) = subscribe c ts cb
  act c (sends pkg) = (server_transaction_async formats c pkg).1
  act c collects = (prepare_collect_task_async c).1
  act c predicts = (prepare_collect_task_async c).1
  act c connection_made = when_running c.rw_future c (connected formats.wire c)
  act c (reads buf) =
      when_running c.rw_future c (record c { read_queue = put_read c.read_queue buf })
  act c (connection_done err) = when_running c.rw_future c (connection_ends c err)
  act c (prediction_done res) =
      when_running c.analyze_nat_future c (prediction_ends formats.wire c formats.address res)
  act c traverses = (prepare_traverse_task_async c).1
  act c asks_http = (prepare_http_task_async c).1
  act c (collect_done pkg) = when_running c.analyze_nat_future c (collect_ends formats.wire c pkg)
  act c (traverse_done pkg) =
      when_running c.traverse_nat_future c (traverse_ends formats.wire c pkg)
  act c (http_done pkg) = when_running c.http_future c (http_ends formats.wire c pkg)
  act c (sets_timer now duration_ms) = create_timer_async c now duration_ms
  act c (updates now) = update formats.wire call c now

  unfoldable pub act_all : Client → List (Act J) → Client
  act_all c [] = c
  act_all c (a ∷ rest) = act_all (act c a) rest

when_running-IsServed :
    (future : Future) (c d : Client)
    → IsServed c
    → (future ≡ running → IsServed d)
    → IsServed (when_running future c d)
when_running-IsServed invalid c d s k = s
when_running-IsServed running c d s k = k refl
when_running-IsServed (ready e) c d s k = s

subscribe-IsServed :
    (ts : List Transaction) (c : Client) (cb : ℕ) → IsServed c → IsServed (subscribe c ts cb)
unfolding subscribe
subscribe-IsServed [] c cb s = s
subscribe-IsServed (t ∷ ts) c cb s =
    subscribe-IsServed ts (subscribe_one c (transaction_code t) cb) cb s

module _ {J : Type 0} (formats : Formats J) (call : ℕ → DataPackage J → Client → Client)
    (kept : (cb : ℕ) (pkg : DataPackage J) (c : Client)
      → IsServed c
      → IsServed (call cb pkg c)) where
  with_write_queue-IsServed :
      (c : Client) (r : Error × Option Queue) → IsServed c → Second (with_write_queue c r)
  with_write_queue-IsServed c (err, q) s = s

  sends-IsServed :
      (c : Client) (pkg : DataPackage J)
      → IsServed c
      → Second (server_transaction_async formats c pkg)
  unfolding server_transaction_async
  sends-IsServed c pkg s =
      if-both Second (not (valid c.rw_future)) _ _ s
        (with_write_queue-IsServed c (push_package formats.wire c.write_queue pkg true) s)

  act-IsServed : (c : Client) (a : Act J) → IsServed c → IsServed (act formats call c a)
  unfolding create_timer_async
  act-IsServed c (connects ends) s = connect_async-IsServed c ends s
  act-IsServed c (disconnects ends) s = disconnect-IsServed c ends
  act-IsServed c (subscribes ts cb) s = subscribe-IsServed ts c cb s
  act-IsServed c (sends pkg) s = sends-IsServed c pkg s
  act-IsServed c collects s = prepare_collect_task_async-IsServed c s
  act-IsServed c predicts s = prepare_collect_task_async-IsServed c s
  act-IsServed c connection_made s =
      when_running-IsServed c.rw_future c (connected formats.wire c) s
        (λ e. connected-IsServed formats.wire c e s)
  act-IsServed c (reads buf) s =
      when_running-IsServed c.rw_future c (record c { read_queue = put_read c.read_queue buf }) s
        (λ e. put_read-IsServed c buf e s)
  act-IsServed c (connection_done err) s =
      when_running-IsServed c.rw_future c (connection_ends c err) s
        (λ e. connection_ends-IsServed c err e s)
  act-IsServed c (prediction_done res) s =
      when_running-IsServed c.analyze_nat_future c
        (prediction_ends formats.wire c formats.address res) s
        (λ e. prediction_ends-IsServed formats.wire c formats.address res e s)
  act-IsServed c traverses s = prepare_traverse_task_async-IsServed c s
  act-IsServed c asks_http s = prepare_http_task_async-IsServed c s
  act-IsServed c (collect_done pkg) s =
      when_running-IsServed c.analyze_nat_future c (collect_ends formats.wire c pkg) s
        (λ e. collect_ends-IsServed formats.wire c pkg e s)
  act-IsServed c (traverse_done pkg) s =
      when_running-IsServed c.traverse_nat_future c (traverse_ends formats.wire c pkg) s
        (λ e. traverse_ends-IsServed formats.wire c pkg e s)
  act-IsServed c (http_done pkg) s =
      when_running-IsServed c.http_future c (http_ends formats.wire c pkg) s
        (λ e. http_ends-IsServed formats.wire c pkg e s)
  act-IsServed c (sets_timer now duration_ms) s = s
  act-IsServed c (updates now) s = update-IsServed formats.wire call kept c now s

  act_all-kept :
      (c : Client) (acts : List (Act J)) → IsServed c → IsServed (act_all formats call c acts)
  unfolding act_all
  act_all-kept c [] s = s
  act_all-kept c (a ∷ rest) s = act_all-kept (act formats call c a) rest (act-IsServed c a s)

  -- After any of the acts above, in any order, with callbacks that keep it: subscribing, connecting
  -- and disconnecting, packages for the server, the starts and ends of collections, predictions,
  -- traversals and HTTP requests, the start and the end of the connection and what it reads, timers
  -- and updates: as long as a
  -- connection, a collection, a traversal or an HTTP request runs, or its result is not yet taken,
  -- the client has a read queue, so that the package of a task that ends is never refused for want
  -- of a queue.
  pub act_all-IsServed : (acts : List (Act J)) → IsServed (act_all formats call new_client acts)
  act_all-IsServed acts = act_all-kept new_client acts (record {
    rw_served = unserved false;
    analyze_served = unserved false;
    traverse_served = unserved false;
    http_served = unserved false;
  })

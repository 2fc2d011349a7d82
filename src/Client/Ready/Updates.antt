-- ===== src/Client/Ready/Updates.antt =====
-- What `Update` of AndroidSource/src/Components/NatTraverserClient.cpp keeps, for callbacks that keep it.
use nat_data_collector.Prelude.{ℕ, Option, none, some, List, [], ◌∷◌, is_some, if-both}
use nat_data_collector.Prelude.OrderedMap.{find}
use nat_data_collector.Types.{Transaction, transaction_code}
use nat_data_collector.Errors.{failed}
use nat_data_collector.Protocol.{DataPackage, create_error, create_bare}
use nat_data_collector.Framing.Package.{Wire, decompress}
use nat_data_collector.Timer.{has_expired}
use nat_data_collector.Client.{Client, Future, Queue, invalid, running, ready, try_pop}
use nat_data_collector.Client.Publishing.{
  call_all, call_some, marked, publish_transaction, take_result, take_results, timer_over,
  check_timer, publish_first, read_package, update,
}
use nat_data_collector.Client.Ready.{IsServed, unserved, with_queue}

module _ {J : Type 0} (wire : Wire J) (call : ℕ → DataPackage J → Client → Client)
    (kept : (cb : ℕ) (pkg : DataPackage J) (c : Client)
      → IsServed c
      → IsServed (call cb pkg c)) where
  call_all-IsServed :
      (cbs : List ℕ) (pkg : DataPackage J) (c : Client)
      → IsServed c
      → IsServed (call_all call cbs pkg c)
  unfolding call_all
  call_all-IsServed [] pkg c s = s
  call_all-IsServed (cb ∷ cbs) pkg c s = call_all-IsServed cbs pkg (call cb pkg c) (kept cb pkg c s)

  call_some-IsServed :
      (cbs : Option (List ℕ)) (pkg : DataPackage J) (c : Client)
      → IsServed c
      → IsServed (call_some call cbs pkg c)
  call_some-IsServed none pkg c s = s
  call_some-IsServed (some cbs) pkg c s = call_all-IsServed cbs pkg c s

  publish_transaction-IsServed :
      (c : Client) (pkg : DataPackage J) → IsServed c → IsServed (publish_transaction call c pkg)
  unfolding publish_transaction
  publish_transaction-IsServed c pkg s =
      call_some-IsServed (find (transaction_code (marked pkg).transaction) c.transaction_callbacks)
        (marked pkg) c s

  take_result-IsServed :
      (future : Future) (c taken : Client)
      → IsServed c
      → IsServed taken
      → IsServed (take_result wire call future c taken)
  take_result-IsServed invalid c taken s t = s
  take_result-IsServed running c taken s t = s
  take_result-IsServed (ready res) c taken s t =
      if-both IsServed (failed res) (publish_transaction call taken (create_error wire.json res))
        taken (publish_transaction-IsServed taken (create_error wire.json res) t) t

  -- The loop over the futures, one after the other.
  take_rw :
      (c : Client)
      → IsServed c
      → IsServed (take_result wire call c.rw_future c (record c { rw_future = invalid }))
  take_rw c s =
      take_result-IsServed c.rw_future c (record c { rw_future = invalid }) s
        (record {
          rw_served = unserved (is_some c.read_queue);
          analyze_served = s.analyze_served;
          traverse_served = s.traverse_served;
          http_served = s.http_served;
        })

  take_analyze :
      (c : Client)
      → IsServed c
      → IsServed
          (take_result wire call c.analyze_nat_future c (record c { analyze_nat_future = invalid }))
  take_analyze c s =
      take_result-IsServed c.analyze_nat_future c (record c { analyze_nat_future = invalid }) s
        (record {
          rw_served = s.rw_served;
          analyze_served = unserved (is_some c.read_queue);
          traverse_served = s.traverse_served;
          http_served = s.http_served;
        })

  take_traverse :
      (c : Client)
      → IsServed c
      → IsServed (
          take_result wire call c.traverse_nat_future c
            (record c { traverse_nat_future = invalid }))
  take_traverse c s =
      take_result-IsServed c.traverse_nat_future c (record c { traverse_nat_future = invalid }) s
        (record {
          rw_served = s.rw_served;
          analyze_served = s.analyze_served;
          traverse_served = unserved (is_some c.read_queue);
          http_served = s.http_served;
        })

  take_http :
      (c : Client)
      → IsServed c
      → IsServed (take_result wire call c.http_future c (record c { http_future = invalid }))
  take_http c s =
      take_result-IsServed c.http_future c (record c { http_future = invalid }) s
        (record {
          rw_served = s.rw_served;
          analyze_served = s.analyze_served;
          traverse_served = s.traverse_served;
          http_served = unserved (is_some c.read_queue);
        })

  take_results-IsServed : (c : Client) → IsServed c → IsServed (take_results wire call c)
  unfolding take_results
  take_results-IsServed c s = take_http _ (take_traverse _ (take_analyze _ (take_rw c s)))

  check_timer-IsServed :
      (c : Client) (now : ℕ) → IsServed c → IsServed (check_timer wire call c now)
  unfolding check_timer
  check_timer-IsServed c now s =
      let pkg = create_bare wire.json Transaction.client_timer_over in
      if-both IsServed (has_expired c.timer now) (timer_over (publish_transaction call c pkg)) c
        (publish_transaction-IsServed c pkg s) s

  publish_first-IsServed :
      (c : Client) (o : Option (List ℕ × Queue))
      → IsServed c
      → IsServed (publish_first wire call c o)
  publish_first-IsServed c none s = s
  publish_first-IsServed c (some (buf, q)) s =
      publish_transaction-IsServed (record c { read_queue = some q }) (decompress wire buf)
        (with_queue c.rw_future c.analyze_nat_future c.traverse_nat_future c.http_future)

  read_some-IsServed :
      (c : Client) (o : Option Queue)
      → IsServed c
      → IsServed (elim o [ none ↦ c | some q ↦ publish_first wire call c (try_pop q) ])
  read_some-IsServed c none s = s
  read_some-IsServed c (some q) s = publish_first-IsServed c (try_pop q) s

  pub update-IsServed : (c : Client) (now : ℕ) → IsServed c → IsServed (update wire call c now)
  unfolding update read_package
  update-IsServed c now s =
      let checked = check_timer wire call (take_results wire call c) now in
      read_some-IsServed checked checked.read_queue
        (check_timer-IsServed (take_results wire call c) now (take_results-IsServed c s))

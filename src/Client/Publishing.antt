-- ===== src/Client/Publishing.antt =====
-- `Update` and `publish_transaction` of AndroidSource/src/Components/NatTraverserClient.cpp.
use nat_data_collector.Prelude.{ℕ, false, Option, none, some, List, [], ◌∷◌, if◌then◌else◌}
use nat_data_collector.Prelude.OrderedMap.{find}
use nat_data_collector.Types.{Transaction, transaction_code}
use nat_data_collector.Errors.{Error, failed}
use nat_data_collector.Protocol.{DataPackage, create_error, create_bare}
use nat_data_collector.Framing.Package.{Wire, decompress}
use nat_data_collector.Timer.{has_expired, set_active}
use nat_data_collector.Client.{Client, Queue, Future, invalid, running, ready, try_pop}

abbrev pub timer_over : Client → Client
timer_over c = record c { timer = set_active c.timer false }

abbrev pub marked : {J : Type 0} → DataPackage J → DataPackage J
marked pkg = if failed pkg.error then record pkg { transaction = Transaction.error } else pkg

-- `call` is what a callback does when it is called: it may use the client.
module _ {J : Type 0} (call : ℕ → DataPackage J → Client → Client) where
  unfoldable pub call_all : List ℕ → DataPackage J → Client → Client
  call_all [] pkg c = c
  call_all (cb ∷ cbs) pkg c = call_all cbs pkg (call cb pkg c)

  abbrev pub call_some : Option (List ℕ) → DataPackage J → Client → Client
  call_some none pkg c = c
  call_some (some cbs) pkg c = call_all cbs pkg c

  -- `publish_transaction`.
  unfoldable pub publish_transaction : Client → DataPackage J → Client
  unfolding call_all transaction_code
  publish_transaction c pkg =
      let p = marked pkg in
      call_some (find (transaction_code p.transaction) c.transaction_callbacks) p c

module _ {J : Type 0} (wire : Wire J) (call : ℕ → DataPackage J → Client → Client) where
  -- The loop of `Update` for one future: the client without it, if it is ready.
  abbrev pub publish_result : Error → Client → Client
  publish_result res c =
      if failed res then publish_transaction call c (create_error wire.json res) else c

  abbrev pub take_result : Future → Client → Client → Client
  take_result (ready res) c taken = publish_result res taken
  take_result running c taken = c
  take_result invalid c taken = c

  unfoldable pub take_results : Client → Client
  unfolding publish_transaction create_error
  take_results c =
      let a = take_result c.rw_future c (record c { rw_future = invalid }) in
      let b = take_result a.analyze_nat_future a (record a { analyze_nat_future = invalid }) in
      let d = take_result b.traverse_nat_future b (record b { traverse_nat_future = invalid }) in
      take_result d.http_future d (record d { http_future = invalid })

  unfoldable pub check_timer : Client → ℕ → Client
  unfolding publish_transaction create_bare has_expired set_active
  check_timer c now =
      if has_expired c.timer now
      then timer_over
          (publish_transaction call c (create_bare wire.json Transaction.client_timer_over))
      else c

  abbrev pub publish_first : Client → Option (List ℕ × Queue) → Client
  publish_first c none = c
  publish_first c (some (buf, q)) =
      publish_transaction call (record c { read_queue = some q }) (decompress wire buf)

  unfoldable pub read_package : Client → Client
  unfolding publish_transaction decompress
  read_package c = elim c.read_queue [ none ↦ c | some q ↦ publish_first c (try_pop q) ]

  -- `Update`.
  unfoldable pub update : Client → ℕ → Client
  unfolding take_results check_timer read_package
  update c now = read_package (check_timer (take_results c) now)

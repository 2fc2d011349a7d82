-- ===== src/Client/Delivery.antt =====
-- The way of a package through the client of AndroidSource/src/Components/NatTraverserClient.cpp.
use nat_data_collector.Prelude.{ℕ, true, some, List, [], length, ◌<◌, ◌^◌, ◌≡◌, refl}
use nat_data_collector.Errors.{no_error}
use nat_data_collector.Protocol.{DataPackage}
use nat_data_collector.Framing.Package.{Wire, compress}
use nat_data_collector.Framing.Package.RoundTrip.{IsWire, decompress-compress}
use nat_data_collector.Client.{Client, ready}
use nat_data_collector.Client.Tasks.{collect_ends, execute_task_async}
use nat_data_collector.Client.Publishing.{read_package, publish_transaction}

module _ {J : Type 0} (wire : Wire J) (laws : IsWire wire)
    (call : ℕ → DataPackage J → Client → Client) where
  -- With libraries that behave as `IsWire` says: where nothing waits in the read queue, the package
  -- that a collection ends with, if its message is below 10⁹ bytes, is published unchanged by the
  -- next reading, and the queue is empty again.
  pub read_package-collect_ends :
      (c : Client) (pkg : DataPackage J) (bytes : List ℕ)
      → c.read_queue ≡ some []
      → compress wire true pkg ≡ some bytes
      → length bytes < 10 ^ 9
      → read_package wire call (collect_ends wire c pkg)
        ≡ publish_transaction call
            (record c { read_queue = some []; analyze_nat_future = ready no_error })
            pkg
  unfolding collect_ends execute_task_async read_package
  read_package-collect_ends c pkg bytes e h short =
      let (m, framed, back, plain) = decompress-compress wire laws pkg bytes h short in
      rw (e, plain, back) refl

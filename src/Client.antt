-- ===== src/Client.antt =====
-- The client of the traversal service: AndroidSource/src/Components/NatTraverserClient.cpp and .h, with
-- AndroidSource/src/CustomCollections/ConcurrentQueue.h. A queue is the list of its messages, the first
-- to leave in front; a shared pointer that is null is `none`. The lock of a queue makes each of its
-- operations one step, so that it is not modelled.
pub mod Requests
pub mod Tasks
pub mod Publishing
pub mod Connection
pub mod Delivery
pub mod Disconnect
pub mod Ready
pub mod Idle
use Prim.Native.String.{◌++◌ as append}
use nat_data_collector.Prelude.{
  ℕ, String, Bool, true, false, Option, none, some, List, [], ◌∷◌, ◌++◌, if◌then◌else◌, not, ◌&&◌,
  is_some,
}
use nat_data_collector.Prelude.OrderedMap.{Map, find, insert}
use nat_data_collector.Types.{ErrorType, Transaction, transaction_code}
use nat_data_collector.Errors.{Error, no_error, add, failed}
use nat_data_collector.Json.{Json}
use nat_data_collector.Protocol.{DataPackage, create_error, create_bare}
use nat_data_collector.Framing.Package.{Wire, compress, decompress}
use nat_data_collector.Timer.{SimpleTimer, new_timer, expires_from_now, has_expired, set_active}

abbrev pub Queue : Type 0
Queue = List (List ℕ)

-- A `std::future<Error>`: without a task, with a task that runs, or with a result to take.
pub data Future : Type 0 where
  invalid running : Future
  ready : Error → Future

-- `valid`.
abbrev pub valid : Future → Bool
valid invalid = false
valid running = true
valid (ready e) = true

-- The members; a callback is known by its number.
pub record Client : Type 0 where
  pub write_queue : Option Queue
  pub read_queue : Option Queue
  pub shutdown_flag : Option Bool
  pub rw_future : Future
  pub analyze_nat_future : Future
  pub traverse_nat_future : Future
  pub http_future : Future
  pub timer : SimpleTimer
  pub transaction_callbacks : Map (List ℕ)

abbrev pub new_client : Client
new_client = record {
  write_queue = none;
  read_queue = none;
  shutdown_flag = none;
  rw_future = invalid;
  analyze_nat_future = invalid;
  traverse_nat_future = invalid;
  http_future = invalid;
  timer = new_timer;
  transaction_callbacks = [];
}

-- `Subscribe`.
abbrev pub more : Option (List ℕ) → ℕ → List ℕ
more none cb = cb ∷ []
more (some cbs) cb = cbs ++ cb ∷ []

abbrev pub subscribe_one : Client → ℕ → ℕ → Client
subscribe_one c code cb = record c {
  transaction_callbacks =
      insert code (more (find code c.transaction_callbacks) cb) c.transaction_callbacks;
}

unfoldable pub subscribe : Client → List Transaction → ℕ → Client
unfolding transaction_code
subscribe c [] cb = c
subscribe c (t ∷ ts) cb = subscribe (subscribe_one c (transaction_code t) cb) ts cb

-- The loop of `Disconnect` over the futures: the results, that of a running task being `late`.
abbrev pub result_of : Future → Error → Error → Error
result_of invalid late response = response
result_of running late response = add response late
result_of (ready e) late response = add response e

-- What the tasks that still run end with.
pub record Ends : Type 0 where
  pub rw : Error
  pub analyze : Error
  pub traverse : Error
  pub http : Error

unfoldable pub disconnect : Client → Ends → Error × Client
unfolding add
disconnect c ends =
    let rw = result_of c.rw_future ends.rw no_error in
    let analyze = result_of c.analyze_nat_future ends.analyze rw in
    let traverse = result_of c.traverse_nat_future ends.traverse analyze in
    (
      result_of c.http_future ends.http traverse,
      record c {
        write_queue = none;
        read_queue = none;
        shutdown_flag = none;
        rw_future = invalid;
        analyze_nat_future = invalid;
        traverse_nat_future = invalid;
        http_future = invalid;
        timer = set_active c.timer false;
      },
    )

abbrev pub goes_on : Option Bool → Bool
goes_on (some false) = true
goes_on _ = false

-- `ConnectAsync`.
unfoldable pub connect_async : Client → Ends → Error × Client
unfolding disconnect
connect_async c ends =
    if is_some c.write_queue && is_some c.read_queue && goes_on c.shutdown_flag
    then (no_error, c)
    else let cleared = (disconnect c ends).1 in
      (
        no_error,
        record cleared {
          write_queue = some [];
          read_queue = some [];
          shutdown_flag = some false;
          rw_future = running;
        },
      )

-- `ConcurrentQueue::Push` and `TryPop`.
abbrev pub push : Queue → List ℕ → Queue
push q item = q ++ item ∷ []

abbrev pub try_pop : Queue → Option (List ℕ × Queue)
try_pop [] = none
try_pop (item ∷ q) = some (item, q)

abbrev pub first_message : List String → String
first_message [] = ""
first_message (m ∷ ms) = m

abbrev pub push_some : Queue → Option (List ℕ) → Queue
push_some q none = q
push_some q (some item) = push q item

abbrev pub compress_error : Error → Error
compress_error err = record {
  error = ErrorType.error;
  messages = append "Failed to compress push error : " (first_message err.messages) ∷ [];
}

abbrev pub failure : String → Error
failure message = record { error = ErrorType.error; messages = message ∷ [] }

module _ {J : Type 0} (wire : Wire J) where
  -- `ConcurrentQueue::push_error`.
  unfoldable pub push_error : Queue → Error → Queue
  unfolding compress create_error
  push_error q err = elim (compress wire false (create_error wire.json err)) [
    | some item ↦ push q item
    | none ↦ push_some q (compress wire false (create_error wire.json (compress_error err)))
  ]

  abbrev pub pushed : Queue → Option (List ℕ) → Error × Option Queue
  pushed q (some item) = (no_error, some (push q item))
  pushed q none = let err = failure "Failed compressing pkg" in (err, some (push_error q err))

  -- `push_package`.
  unfoldable pub push_package : Option Queue → DataPackage J → Bool → Error × Option Queue
  unfolding push_error compress
  push_package none pkg prepend_msg_length = (failure "Invalid Queue", none)
  push_package (some q) pkg prepend_msg_length = pushed q (compress wire prepend_msg_length pkg)

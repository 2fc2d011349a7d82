-- ===== src/Holepunch.antt =====
-- Hole punching: AndroidSource/src/Components/UDPHolepunching.cpp and .h. The completions of asio's
-- operations are events that come in any order; `none` is the exception of nlohmann::json for a
-- number of another type, which leaves the task. Lines for the log are left out.
pub mod Safety
pub mod Ends
pub mod Meeting
use Prim.Native.String.{◌++◌ as append}
use nat_data_collector.Prelude.{
  ℕ, zero, suc, ◌*◌, String, Bool, true, false, not, ◌&&◌, ◌||◌, Option, none, some, List, [], ◌∷◌,
  ◌++◌, ◌==◌, if◌then◌else◌, ◌>>=◌, get_elem?, is_empty,
}
use nat_data_collector.Prelude.Decimal.{to_string}
use nat_data_collector.Types.{ErrorType, Transaction}
use nat_data_collector.Errors.{Error, no_error, ErrorCode, from_asio, add, failed}
use nat_data_collector.Json.{Json, Conversion, Codec}
use nat_data_collector.Protocol.{DataPackage, create_error, create_data}
use nat_data_collector.Data.{Address}
use nat_data_collector.Collect.{clamp_if_not_enough_files}
use nat_data_collector.Collect.Stages.{update}
use nat_data_collector.Collect.Steps.{fails}

pub record Config : Type 0 where
  pub target_client : Address
  pub traversal_attempts : ℕ
  pub traversal_rate : ℕ
  pub local_port : ℕ
  pub deadline_duration_ms : ℕ
  pub keep_alive_rate_ms : ℕ

pub record Result : Type 0 where
  pub success : Bool
  pub local_port : ℕ
  pub target_port : ℕ
  pub target_address : String
  pub rcvd_index : ℕ
  pub send_index : ℕ

abbrev pub blank_result : Result
blank_result = record {
  success = false;
  local_port = 0;
  target_port = 0;
  target_address = "";
  rcvd_index = 0;
  send_index = 0;
}

-- An element of `_socket_list`; `timer` is the milliseconds after which its timer is due, while it
-- waits. The asio socket is never null.
pub record Socket : Type 0 where
  pub index : ℕ
  pub timer : Option ℕ

pub record Endpoint : Type 0 where
  pub address : String
  pub port : ℕ

-- The task; `stopped` is the state of `_io`.
pub record Task : Type 0 where
  pub config : Config
  pub socket_list : List Socket
  pub error : Error
  pub result : Result
  pub stopped : Bool

-- What the system answers to the constructor for one socket: `make_address` with its message,
-- opening and binding.
pub record Opening : Type 0 where
  pub address : ErrorCode
  pub message : String
  pub opened : ErrorCode
  pub bound : ErrorCode

-- A datagram that came in: its bytes, its sender, and the port of the socket that got it.
pub record Arrival : Type 0 where
  pub bytes : List ℕ
  pub other_endpoint : Endpoint
  pub local_port : ℕ

-- A datagram on its way, with the place of the socket that sends it.
pub record Datagram (J : Type 0) : Type 0 where
  pub socket : ℕ
  pub to_endpoint : Endpoint
  pub document : J

-- The completions. A socket is meant by its place in `_socket_list`; `none` is a null shutdown flag.
pub data Event : Type 0 where
  request_due : ℕ → ErrorCode → String → Event
  sent : ℕ → ErrorCode → String → Event
  received : ℕ → ErrorCode → String → Arrival → Event
  answered : ErrorCode → Event
  deadline_due : ErrorCode → Event
  shutdown_due : ErrorCode → Option Bool → Event

-- What the task takes from the libraries: `number` converts a uint16_t, and the bytes of a datagram
-- are those of its document.
pub record Formats (J : Type 0) : Type 0 where
  pub json : Json J
  pub from_msgpack : List ℕ → J
  pub number : Conversion J ℕ
  pub result : Codec J Result

abbrev pub send_id : String
send_id = "send_id"

-- `if (ec)`.
abbrev pub is_error : ErrorCode → Bool
is_error ErrorCode.success = false
is_error _ = true

-- The loop of the constructor, with the rounds that remain. The product of the rate and the index
-- is that of two uint16_t as an int.
unfoldable pub prepare : Config → (ℕ → Opening) → ℕ → ℕ → List Socket × Error
unfolding from_asio
prepare config answers index zero = ([], no_error)
prepare config answers index (suc n) =
    let o = answers index in
    let err = from_asio o.address o.message "Make Adress" in
    let rest = prepare config answers (suc index) n in
    if failed err
    then (record { index = index; timer = none } ∷ [], err)
    else if is_error o.opened || is_error o.bound
    then (record { index = index; timer = none } ∷ [], err)
    else (record { index = index; timer = some (config.traversal_rate * index) } ∷ rest.0, rest.1)

unfoldable pub new_task : Config → (ℕ → Opening) → Task
unfolding prepare
new_task config answers =
    let (sockets, err) = prepare config answers 0 config.traversal_attempts in
    record {
      config = config;
      socket_list = sockets;
      error = err;
      result = blank_result;
      stopped = false;
    }

-- `_error.error = ErrorType::ERROR`, two messages more, and `_io.stop()`.
abbrev pub stop_after : Task → String → String → Task
stop_after t context message = record t {
  error = record { error = ErrorType.error; messages = t.error.messages ++ context ∷ message ∷ [] };
  stopped = true;
}

abbrev pub stop_with : Task → Error → Task
stop_with t err = record t { error = err; stopped = true }

abbrev pub set_timer : Option ℕ → Socket → Socket
set_timer due s = record s { timer = due }

abbrev pub remote_endpoint : Config → Endpoint
remote_endpoint config = record {
  address = config.target_client.ip_address;
  port = config.target_client.port;
}

-- The timer of the next request to keep the hole open.
abbrev pub keep_alive : Task → ℕ → Task
keep_alive t i = if t.config.keep_alive_rate_ms == 0 then t else record t {
  socket_list = update (set_timer (some t.config.keep_alive_rate_ms)) i t.socket_list;
}

module _ {J : Type 0} (formats : Formats J) where
  -- `to_send[SEND_ID] = index` on a new document.
  abbrev pub identify : ℕ → J
  identify index = formats.json.put formats.json.null send_id (formats.number.to_json index)

  abbrev pub request_at : Task → ℕ → Option Socket → Task × List (Datagram J)
  request_at t i none = (t, [])
  request_at t i (some sock) = (
    keep_alive t i,
    record { socket = i; to_endpoint = remote_endpoint t.config; document = identify i } ∷ [],
  )

  unfoldable pub send_request : Task → ℕ → ErrorCode → String → Task × List (Datagram J)
  unfolding to_string
  send_request t i ErrorCode.operation_aborted message = (t, [])
  send_request t i ec message =
      if fails ec
      then (
        stop_after t (append "UDP Holepunching send request at index " (to_string i)) message,
        [],
      )
      else request_at t i (get_elem? t.socket_list i)

-- `start_receive`: without an error the socket waits for a datagram, which changes no state here.
unfoldable pub start_receive : Task → ℕ → ErrorCode → String → Task
unfolding to_string
start_receive t i ErrorCode.operation_aborted message = t
start_receive t i ec message =
    if fails ec
    then stop_after t (append "UDP Holepunching start receive at index " (to_string i)) message
    else t

abbrev pub heard : ℕ → Arrival → ℕ → Result
heard i a recvd_index = record {
  success = true;
  local_port = a.local_port;
  target_port = a.other_endpoint.port;
  target_address = a.other_endpoint.address;
  rcvd_index = i;
  send_index = recvd_index;
}

module _ {J : Type 0} (formats : Formats J) where
  -- The receiver keeps the index that it was sent, and tells its own.
  abbrev pub tell : Task → ℕ → Arrival → ℕ → Task × List (Datagram J)
  tell t i a recvd_index = (
    record t { result = heard i a recvd_index },
    record { socket = i; to_endpoint = a.other_endpoint; document = identify formats i } ∷ [],
  )

  abbrev pub receive_document : Task → ℕ → Arrival → J → Option (Task × List (Datagram J))
  receive_document t i a document =
      if formats.json.is_null document || not (formats.json.contains document send_id)
      then some (t, [])
      else formats.number.from_json (formats.json.at document send_id) >>= λ recvd_index.
          some (tell t i a recvd_index)

  abbrev pub receive_at : Task → ℕ → Arrival → Option Socket → Option (Task × List (Datagram J))
  receive_at t i a none = some (
    stop_with t (
        add t.error (record {
          error = ErrorType.error;
          messages = "UDP Holepunching socket index invalid during handle receive" ∷ [];
        })),
    [],
  )
  receive_at t i a (some sock) = receive_document t i a (formats.from_msgpack a.bytes)

  unfoldable pub handle_receive :
      Task → ℕ → ErrorCode → String → Arrival → Option (Task × List (Datagram J))
  unfolding add from_asio
  handle_receive t i ErrorCode.operation_aborted message a = some (t, [])
  handle_receive t i ec message a =
      if fails ec
      then some
          (stop_with t (add t.error (from_asio ec message "UDP Holepunching handle receive")), [])
      else if is_empty a.bytes
      then some (t, [])
      else receive_at t i a (get_elem? t.socket_list i)

-- The handler of the timer of `CreateDeadline`.
abbrev pub on_deadline : Task → ErrorCode → Task
on_deadline t ErrorCode.operation_aborted = t
on_deadline t ec = stop_with t (record {
  error = ErrorType.answer;
  messages = "Traversal failed, deadline duration is over" ∷ [];
})

abbrev pub wants_shutdown : Option Bool → Bool
wants_shutdown none = true
wants_shutdown (some shutdown) = shutdown

-- The handler of the timer of `UpdateShutdownTimer`, which else waits again.
abbrev pub on_shutdown : Task → ErrorCode → Option Bool → Task
on_shutdown t ErrorCode.operation_aborted flag = t
on_shutdown t ec flag =
    if wants_shutdown flag
    then stop_with t (record {
      error = ErrorType.error;
      messages = "Abort Traversal, shutdown requested from main thread" ∷ [];
    })
    else t

module _ {J : Type 0} (formats : Formats J) where
  -- A timer that has fired waits no longer, and one that does not wait does not fire.
  abbrev pub timer_at : Task → ℕ → ErrorCode → String → Option ℕ → Task × List (Datagram J)
  timer_at t i ec message none = (t, [])
  timer_at t i ec message (some due) =
      send_request formats (record t { socket_list = update (set_timer none) i t.socket_list }) i ec
        message

  abbrev pub due_at : Task → ℕ → ErrorCode → String → Option Socket → Task × List (Datagram J)
  due_at t i ec message none = (t, [])
  due_at t i ec message (some sock) = timer_at t i ec message sock.timer

  abbrev pub handle : Task → Event → Option (Task × List (Datagram J))
  handle t (request_due i ec message) = some (due_at t i ec message (get_elem? t.socket_list i))
  handle t (sent i ec message) = some (start_receive t i ec message, [])
  handle t (received i ec message a) = handle_receive formats t i ec message a
  handle t (answered ec) = some (record t { stopped = true }, [])
  handle t (deadline_due ec) = some (on_deadline t ec, [])
  handle t (shutdown_due ec flag) = some (on_shutdown t ec flag, [])

  -- One event; a stopped io service runs no handlers.
  unfoldable pub step : Task → Event → Option (Task × List (Datagram J))
  unfolding send_request start_receive handle_receive
  step t e = if t.stopped then some (t, []) else handle t e

  unfoldable pub run_events : Task → List Event → Option Task
  unfolding step
  run_events t [] = some t
  run_events t (e ∷ es) = step t e >>= λ r. run_events r.0 es

  -- The end of `run`; `ec` is what `_io.run` gives, and the sockets are closed.
  unfoldable pub finish : ErrorCode → String → Task → DataPackage J
  unfolding create_error create_data from_asio
  finish ErrorCode.success message t =
      if failed t.error
      then create_error formats.json t.error
      else create_data formats.json formats.result t.result Transaction.client_traversal_result
  finish ec message t =
      create_error formats.json
        (from_asio ec message "Asio IO service failed during UDP Collect Nat Data attempt")

  unfoldable pub run : ErrorCode → String → Task → List Event → Option (DataPackage J)
  unfolding run_events finish
  run ec message t events =
      if failed t.error
      then some (create_error formats.json t.error)
      else run_events t events >>= λ u. some (finish ec message u)

  -- `StartHolepunching`; `rem95` is what is known of the files that the process may still open.
  unfoldable pub start_holepunching :
      Option ℕ → Config → (ℕ → Opening) → ErrorCode → String → List Event → Option (DataPackage J)
  unfolding clamp_if_not_enough_files new_task run
  start_holepunching rem95 config answers ec message events =
      clamp_if_not_enough_files rem95 config.traversal_attempts 1 >>= λ attempts.
      run ec message (new_task (record config { traversal_attempts = attempts }) answers) events

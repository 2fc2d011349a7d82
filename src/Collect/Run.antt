-- ===== src/Collect/Run.antt =====
-- A run of a task of AndroidSource/src/Components/UDPCollectTask.cpp: the completions of asio's
-- operations are events that come in any order. `none` is a division by 0, a read behind a vector, or
-- a search for a port that does not end. A completion that asio had queued before its stage was
-- cleared, and that still refers to a socket of that stage, is left out; so is the sender of a datagram, whose
-- endpoint the source keeps in a local variable that no longer exists then, and never reads.
use nat_data_collector.Prelude.{
  ℕ, ◌+◌, String, Bool, true, false, not, Option, none, some, List, [], ◌∷◌, ◌++◌, get_elem?, leb,
  if◌then◌else◌, ◌>>=◌, map,
}
use nat_data_collector.Types.{ErrorType, Transaction}
use nat_data_collector.Errors.{ErrorCode, from_asio, failed}
use nat_data_collector.Json.{Json, Codec}
use nat_data_collector.Protocol.{DataPackage, create_error, create_data}
use nat_data_collector.Data.{Address, blank_address, CollectVector, MultiAddressVector}
use nat_data_collector.Collect.{Stage, Socket, Device}
use nat_data_collector.Collect.Stages.{Task, Deadline, update, prepare_stage, new_task}
use nat_data_collector.Collect.Steps.{
  time_stamp_only_ms, fails, cancel_timer, stop_waiting, stop_with, start_receive, receive_address,
  close_early,
}
use nat_data_collector.Collect.Ports.{create_socket}

-- What the system answers to the handler of a request's timer: opening a socket, binding it to a
-- port, `_shutdown_flag`, and `make_address` with its message.
pub record Answers : Type 0 where
  pub opened : ErrorCode
  pub bind : ℕ → ErrorCode
  pub shutdown : Bool
  pub address : ErrorCode
  pub message : String
  pub time : ℕ

-- A request on its way to a service.
pub record Datagram (J : Type 0) : Type 0 where
  pub handle : Option ℕ
  pub to_port : ℕ
  pub document : J

-- One round over all ports.
abbrev pub one_round : ℕ
one_round = 64511

-- The completions. A socket is meant by its place in `_socket_list`, a deadline by its place in
-- `_deadline_vector`, and the bytes are those that were received.
pub data Event : Type 0 where
  request_due : ℕ → Answers → Event
  sent : ℕ → ErrorCode → String → Event
  received : ℕ → ErrorCode → String → List ℕ → Device → Event
  deadline_due : ℕ → Device → Event
  global_due : Device → Event

-- What a task takes from the libraries: `from_msgpack` without exceptions, `to_msgpack` is left to
-- the datagram, and the codecs.
pub record Formats (J : Type 0) : Type 0 where
  pub json : Json J
  pub from_msgpack : List ℕ → J
  pub address : Codec J Address
  pub result : Codec J MultiAddressVector

module _ {J : Type 0} (formats : Formats J) {S : Type 0} where
  abbrev pub send_serialized : Task S → Socket → J × List String → Task S × List (Datagram J)
  send_serialized t sock (document, []) =
      (t, record { handle = sock.socket; to_port = sock.port; document = document } ∷ [])
  send_serialized t sock (document, m ∷ ms) = (
    stop_with t ((m ∷ ms) ++ "Failed to serialize single Address during UDP Collect task" ∷ []),
    [],
  )

  -- `send_request` without an error: the time stamp travels in the place of the round trip time.
  unfoldable pub send_request : Task S → Socket → ℕ → Task S × List (Datagram J)
  send_request t sock now = send_serialized t sock (
      formats.address.serialize
        (record blank_address { index = sock.index; rtt_ms = time_stamp_only_ms now }))

  -- The rest of the handler of a request's timer, once the socket is there.
  abbrev pub to_service : Answers → Task S → Socket → Task S × List (Datagram J)
  to_service answers t sock =
      let err = from_asio answers.address answers.message "Make Adress" in
      if answers.shutdown
      then (
        stop_with (record t { error = record { error = ErrorType.error; messages = [] } })
            ("Abort Collecting Ports, shutdown requested from main thread" ∷ []),
        [],
      )
      else if failed err
      then (record t { error = err }, [])
      else send_request t sock answers.time

  abbrev pub with_socket : Answers → ℕ → Bool × Task S → Option (Task S × List (Datagram J))
  with_socket answers i (false, t) = some (t, [])
  with_socket answers i (true, t) =
      get_elem? t.socket_list i >>= λ sock. some (to_service answers t sock)

  -- The handler of a request's timer.
  unfoldable pub on_request :
      Answers → Task S → ℕ → Socket → Stage S → Option (Task S × List (Datagram J))
  unfolding create_socket send_request
  on_request answers t i sock stage =
      create_socket one_round answers.opened answers.bind t sock.first i stage.settings.local_port
      >>= with_socket answers i

  -- `handle_receive`.
  abbrev pub deserialized : Device → Task S → Socket → Address × List String → Option (Task S)
  deserialized device t sock (a, []) = receive_address device t sock a
  deserialized device t sock (a, m ∷ ms) = some (
      stop_with (record t { error = record { error = ErrorType.error; messages = [] } })
        ((m ∷ ms) ++ "Failed to serialize single Address during UDP Collect task" ∷ []))

  abbrev pub receive_bytes : Device → Task S → Socket → List ℕ → Option (Task S)
  receive_bytes device t sock [] = some t
  receive_bytes device t sock (b ∷ bs) =
      let document = formats.from_msgpack (b ∷ bs) in
      if formats.json.is_null document
      then some t
      else deserialized device t sock (formats.address.deserialize formats.address.fresh document)

  unfoldable pub handle_receive :
      Device → Task S → Socket → ErrorCode → String → List ℕ → Option (Task S)
  unfolding receive_address
  handle_receive device t sock ErrorCode.operation_aborted message bytes = some t
  handle_receive device t sock ec message bytes =
      if fails ec then some (stop_with t (message ∷ [])) else receive_bytes device t sock bytes

-- What comes of the look-up of a place that the event names: an event about nothing does not happen.
abbrev pub at_place {ℓ κ} :
    {A : Type ℓ} {B : Type κ} → List A → ℕ → Option B → (A → Option B) → Option B
at_place xs i nothing f = elim (get_elem? xs i) [ none ↦ nothing | some x ↦ f x ]

abbrev pub quiet : {J : Type 0} {S : Type 0} → Option (Task S) → Option (Task S × List (Datagram J))
quiet none = none
quiet (some t) = some (t, [])

module _ {S : Type 0} where
  abbrev pub deadline_at : Device → Task S → ℕ → Deadline → Option (Task S)
  deadline_at device t k d =
      if not d.waits
      then some t
      else at_place t.socket_list d.place (some t) (
          close_early device
            (record t { deadline_vector = update stop_waiting k t.deadline_vector }))

  abbrev pub global_at : Device → Task S → Option (ℕ × ℕ) → Option (Task S)
  global_at device t none = some t
  global_at device t (some (i, duration)) = prepare_stage device t (i + 1)

module _ {J : Type 0} (formats : Formats J) {S : Type 0} where
  -- A timer that was cancelled, or has fired, does not fire.
  abbrev pub request_at : Answers → Task S → ℕ → Socket → Option (Task S × List (Datagram J))
  request_at answers t i sock = elim sock.timer [
    | none ↦ some (t, [])
    | some due ↦
        (get_elem? t.stages sock.stage_index >>= λ stage.
        on_request formats answers (record t { socket_list = update cancel_timer i t.socket_list })
          i sock stage)
  ]

  abbrev pub handle : Task S → Event → Option (Task S × List (Datagram J))
  handle t (request_due i answers) =
      at_place t.socket_list i (some (t, [])) (request_at answers t i)
  handle t (sent i ec message) =
      quiet (at_place t.socket_list i (some t) (λ sock. start_receive t i sock ec message))
  handle t (received i ec message bytes device) = quiet (
      at_place t.socket_list i (some t)
        (λ sock. handle_receive formats device t sock ec message bytes))
  handle t (deadline_due k device) =
      quiet (at_place t.deadline_vector k (some t) (deadline_at device t k))
  handle t (global_due device) = quiet (global_at device t t.global_deadline)

  -- One event; a stopped io service runs no handlers.
  unfoldable pub step : Task S → Event → Option (Task S × List (Datagram J))
  unfolding on_request start_receive handle_receive close_early prepare_stage
  step t e = if t.stopped then some (t, []) else handle t e

  unfoldable pub run : Task S → List Event → Option (Task S)
  unfolding step
  run t [] = some t
  run t (e ∷ es) = step t e >>= λ r. run r.0 es

-- `std::sort` by the index; the order of addresses with the same index is left open in the source,
-- and is the order of arrival here.
unfoldable pub insert_address : Address → List Address → List Address
insert_address a [] = a ∷ []
insert_address a (b ∷ bs) =
    let rest = insert_address a bs in if leb a.index b.index then a ∷ b ∷ bs else b ∷ rest

unfoldable pub sort_addresses : List Address → List Address
unfolding insert_address
sort_addresses [] = []
sort_addresses (a ∷ rest) = insert_address a (sort_addresses rest)

abbrev pub sort_stage : CollectVector → CollectVector
sort_stage c = record c { addresses = sort_addresses c.addresses }

module _ {J : Type 0} (formats : Formats J) {S : Type 0} where
  -- The end of `start_task_internal`.
  unfoldable pub finish : Task S → DataPackage J
  unfolding create_error create_data sort_addresses
  finish t =
      if failed t.error
      then create_error formats.json t.error
      else create_data formats.json formats.result
          (record { stages = map sort_stage t.result.stages })
          Transaction.client_receive_collected_ports

  abbrev pub run_service : Task S → List Event → Option (Task S × DataPackage J)
  run_service t events =
      if failed t.error
      then some (t, create_error formats.json t.error)
      else run formats t events >>= λ u. some (u, finish u)

  -- `StartCollectTask` with `start_task_internal`, for an io service that runs without an error.
  unfoldable pub start_collect_task :
      Device → List (Stage S) → S → ℕ → List Event → Option (Task S × DataPackage J)
  unfolding new_task run finish
  start_collect_task device info state current_port events =
      new_task device info state current_port >>= λ t. run_service t events

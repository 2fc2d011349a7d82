-- ===== src/Collect/Steps.antt =====
-- What the handlers of a task of AndroidSource/src/Components/UDPCollectTask.cpp do to its state.
-- `none` is a division by 0, or a read behind a vector.
use nat_data_collector.Prelude.{
  ℕ, ◌+◌, ◌-◌, ◌*◌, ◌%◌, String, Bool, true, false, ◌&&◌, Option, none, some, List, [], ◌∷◌, ◌++◌,
  length, get_elem?, ◌==◌, ltb, leb, if◌then◌else◌,
}
use nat_data_collector.Types.{ErrorType}
use nat_data_collector.Errors.{ErrorCode}
use nat_data_collector.Data.{Address, CollectVector}
use nat_data_collector.Collect.{Stage, Socket, Device, Settings, socket_timeout_ms}
use nat_data_collector.Collect.Stages.{Task, Deadline, update, close_socket, prepare_stage}

-- `CreateTimeStampOnlyMS` of Shared/SharedHelpers.h, from the milliseconds since the epoch.
abbrev pub time_stamp_only_ms : ℕ → ℕ
time_stamp_only_ms now = now % 10000

-- `std::abs` of the difference to the time stamp that comes back.
unfoldable pub round_trip : ℕ → ℕ → ℕ
round_trip now sent =
    let stamp = time_stamp_only_ms now in if ltb stamp sent then sent - stamp else stamp - sent

abbrev pub fails : ErrorCode → Bool
fails ErrorCode.success = false
fails ErrorCode.message_size = false
fails _ = true

abbrev pub cancel_timer : Socket → Socket
cancel_timer s = record s { timer = none }

abbrev pub add_address : Address → CollectVector → CollectVector
add_address a c = record c { addresses = c.addresses ++ a ∷ [] }

abbrev pub stop_waiting : Deadline → Deadline
stop_waiting d = record d { waits = false }

-- The deadline that the first request of a local socket sets; its arithmetic is that of uint32_t.
abbrev pub min_duration : Settings → Socket → ℕ
min_duration s sock =
    (s.sample_rate_ms * (sock.max_port + 4294967296 - s.echo_server_start_port) + socket_timeout_ms)
    % 4294967296

module _ {S : Type 0} where
  -- `_error.error = ERROR`, more messages, and `io_service.stop()`.
  abbrev pub stop_with : Task S → List String → Task S
  stop_with t messages = record t {
    error = record { error = ErrorType.error; messages = t.error.messages ++ messages };
    stopped = true;
  }

  abbrev pub add_deadline : Task S → ℕ → Socket → Settings → Task S
  add_deadline t place sock s =
      if s.close_socket_early && (s.echo_server_start_port == sock.port)
      then record t {
        deadline_vector =
            t.deadline_vector
            ++ record { place = place; duration = min_duration s sock; waits = true } ∷ [];
      }
      else t

  abbrev pub start_receive_at : Task S → ℕ → Socket → Option (Stage S) → Option (Task S)
  start_receive_at t place sock none = none
  start_receive_at t place sock (some stage) = some (add_deadline t place sock stage.settings)

  -- `start_receive`, for the completion of sending.
  unfoldable pub start_receive : Task S → ℕ → Socket → ErrorCode → String → Option (Task S)
  start_receive t place sock ec message =
      if fails ec
      then some (stop_with t (message ∷ []))
      else start_receive_at t place sock (get_elem? t.stages sock.stage_index)

  abbrev pub push_address : Task S → ℕ → Address → Task S
  push_address t i a = record t {
    result = record { stages = update (add_address a) i t.result.stages };
  }

  -- The condition of a stage, which may change its state.
  abbrev pub meets : Task S → Stage S → Address → ℕ → Bool × Task S
  meets t stage a i = elim stage.cond [
    | none ↦ (false, t)
    | some cond ↦ (let r = cond t.cond_state a i in (r.1, record t { cond_state = r.0 }))
  ]

  abbrev pub next_stage : Device → Task S → ℕ → Option (Task S)
  next_stage device t i = prepare_stage device t (i + 1)

  abbrev pub received_all : Device → Task S → ℕ → Stage S → Option CollectVector → Option (Task S)
  received_all device t i stage none = none
  received_all device t i stage (some c) =
      if leb stage.settings.sample_size (length c.addresses) then next_stage device t i else some t

  abbrev pub check_stage : Device → ℕ → Stage S → Bool × Task S → Option (Task S)
  check_stage device i stage (true, t) = next_stage device t i
  check_stage device i stage (false, t) =
      received_all device t i stage (get_elem? t.result.stages i)

  abbrev pub check : Device → Task S → Address → ℕ → Option (Stage S) → Option (Task S)
  check device t a i none = none
  check device t a i (some stage) = check_stage device i stage (meets t stage a i)

  -- What `handle_receive` does with an address that it has read.
  unfoldable pub receive_address : Device → Task S → Socket → Address → Option (Task S)
  unfolding prepare_stage round_trip
  receive_address device t sock read =
      let a = record read { rtt_ms = round_trip device.now read.rtt_ms } in
      check device (push_address t sock.stage_index a) a sock.stage_index
        (get_elem? t.stages sock.stage_index)

  -- The action of a deadline.
  unfoldable pub close_early : Device → Task S → Socket → Option (Task S)
  unfolding prepare_stage
  close_early device t sock =
      let closed = record t { handles = close_socket t.handles sock.socket } in
      if sock.is_last_socket then next_stage device closed sock.stage_index else some closed

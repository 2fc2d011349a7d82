-- ===== src/Collect/Ports.antt =====
-- `CreateSocket` of AndroidSource/src/Components/UDPCollectTask.cpp.
use nat_data_collector.Prelude.{
  ℕ, zero, suc, ◌+◌, ◌%◌, Bool, true, false, not, Option, none, some, [], ◌∷◌, ◌++◌, length,
  get_elem?, ◌==◌, ltb, if◌then◌else◌, ◌>>=◌,
}
use nat_data_collector.Types.{PhysicalDeviceError}
use nat_data_collector.Errors.{ErrorCode}
use nat_data_collector.Collect.{Socket}
use nat_data_collector.Collect.Stages.{Task, update}

abbrev pub in_use : ErrorCode → Bool
in_use ErrorCode.address_in_use = true
in_use _ = false

abbrev pub is_success : ErrorCode → Bool
is_success ErrorCode.success = true
is_success _ = false

-- `std::max(current_port, (uint16_t)1025u)`.
abbrev pub at_least_1025 : ℕ → ℕ
at_least_1025 c = if ltb c 1025 then 1025 else c

-- The loop over `current_port`: the first port whose binding does not end in address_in_use. `bind`
-- tells how the binding to a port ends; `none` is a loop that goes on when the fuel is used up.
unfoldable pub search : ℕ → (ℕ → ErrorCode) → ℕ → Option ℕ
search zero bind current = none
search (suc f) bind current =
    let port = at_least_1025 current in
    let rest = search f bind ((port + 1) % 65536) in if in_use (bind port) then rest else some port

abbrev pub set_socket : Option ℕ → Socket → Socket
set_socket h s = record s { socket = h }

abbrev pub device_works : PhysicalDeviceError → Bool
device_works PhysicalDeviceError.no_error = true
device_works PhysicalDeviceError.sockets_exhausted = false

module _ {S : Type 0} where
  abbrev pub exhausted : Task S → Task S
  exhausted t = record t { system_error_state = PhysicalDeviceError.sockets_exhausted }

  -- `_socket_list[i].socket = shared_local_socket`, bound to a port.
  abbrev pub add_handle : Task S → ℕ → ℕ → Task S
  add_handle t i port = record t {
    socket_list = update (set_socket (some (length t.handles))) i t.socket_list;
    handles = t.handles ++ record { bound = port; is_open = true } ∷ [];
  }

  -- The binding to a given port.
  abbrev pub bind_local : Task S → ℕ → ℕ → ErrorCode → Bool × Task S
  bind_local t i port ec =
      if is_success ec then (true, add_handle t i port) else (false, exhausted t)

  -- What follows the loop: the static port moves on where the binding worked.
  abbrev pub bind_found : Task S → ℕ → ℕ → ErrorCode → Bool × Task S
  bind_found t i port ec =
      if is_success ec
      then (true, record (add_handle t i port) { current_port = (port + 1) % 65536 })
      else (false, record (exhausted t) { current_port = port })

  abbrev pub bind_socket : ℕ → (ℕ → ErrorCode) → Task S → ℕ → ℕ → Option (Bool × Task S)
  bind_socket fuel bind t i local_port =
      if local_port == 0
      then (search fuel bind t.current_port >>= λ port. some (bind_found t i port (bind port)))
      else some (bind_local t i local_port (bind local_port))

  -- The cases behind the look-up of `_socket_list[sock_index]`.
  abbrev pub create_at :
      ℕ → ErrorCode → (ℕ → ErrorCode) → Task S → ℕ → ℕ → ℕ → Option Socket → Option (Bool × Task S)
  create_at fuel opened bind t sock_index total_index local_port none = some (false, t)
  create_at fuel opened bind t sock_index total_index local_port (some s) = elim s.socket [
    | some h ↦
        some
          (true, record t { socket_list = update (set_socket (some h)) total_index t.socket_list })
    | none ↦
        if not (sock_index == total_index)
        then some (false, t)
        else if not (is_success opened)
        then some (false, exhausted t)
        else bind_socket fuel bind t sock_index local_port
  ]

  -- `CreateSocket`; `opened` tells how the opening of the socket ends.
  unfoldable pub create_socket :
      ℕ → ErrorCode → (ℕ → ErrorCode) → Task S → ℕ → ℕ → ℕ → Option (Bool × Task S)
  unfolding search
  create_socket fuel opened bind t sock_index total_index local_port =
      if not (device_works t.system_error_state)
      then some (false, t)
      else create_at fuel opened bind t sock_index total_index local_port
          (get_elem? t.socket_list sock_index)

-- ===== src/Collect/Stages.antt =====
-- The state of a task of AndroidSource/src/Components/UDPCollectTask.cpp and the preparation of its
-- stages. `none` is a division by 0, also one in a callback.
use Prim.Native.String.{◌++◌ as append}
use nat_data_collector.Prelude.{
  ℕ, zero, suc, ◌+◌, ◌*◌, ◌%◌, Bool, false, not, ◌&&◌, ◌||◌, Option, none, some, List, [], ◌∷◌, map,
  ◌==◌, ltb, if◌then◌else◌, ◌>>=◌, get_elem?,
}
use nat_data_collector.Prelude.Decimal.{to_string}
use nat_data_collector.Types.{ErrorType, PhysicalDeviceError}
use nat_data_collector.Errors.{Error, no_error}
use nat_data_collector.Data.{CollectVector, MultiAddressVector}
use nat_data_collector.Collect.{
  Settings, Stage, Socket, Device, sockets, sockets_for, clamp_if_not_enough_files,
  socket_timeout_ms,
}

-- A timer of `_deadline_vector`: the place of its socket, its milliseconds, and whether it waits.
pub record Deadline : Type 0 where
  pub place : ℕ
  pub duration : ℕ
  pub waits : Bool

-- A UDP socket of the system, bound to a port.
pub record Handle : Type 0 where
  pub bound : ℕ
  pub is_open : Bool

-- A `UDPCollectTask` with what it refers to: `handles` are the sockets of the system that it made,
-- `current_port` the static variable of `CreateSocket`, and `stopped` tells whether the io service
-- was stopped. `global_deadline` is the stage and the milliseconds of the timer, while it waits.
pub record Task (S : Type 0) : Type 0 where
  pub deadline_vector : List Deadline
  pub global_deadline : Option (ℕ × ℕ)
  pub stages : List (Stage S)
  pub socket_list : List Socket
  pub system_error_state : PhysicalDeviceError
  pub error : Error
  pub result : MultiAddressVector
  pub start_time_task : ℕ
  pub cond_state : S
  pub handles : List Handle
  pub current_port : ℕ
  pub stopped : Bool

-- To change the element at a place of a vector.
abbrev pub update {ℓ} : {A : Type ℓ} → (A → A) → ℕ → List A → List A
update f i [] = []
update f zero (x ∷ xs) = f x ∷ xs
update f (suc i) (x ∷ xs) = x ∷ update f i xs

abbrev pub close_handle : Handle → Handle
close_handle h = record h { is_open = false }

-- `if (sock.socket && sock.socket->is_open()) sock.socket->close()`.
abbrev pub close_socket : List Handle → Option ℕ → List Handle
close_socket handles none = handles
close_socket handles (some h) = update close_handle h handles

unfoldable pub close_all : List Handle → List Socket → List Handle
close_all handles [] = handles
close_all handles (s ∷ ss) = close_all (close_socket handles s.socket) ss

abbrev pub set_rate : ℕ → CollectVector → CollectVector
set_rate rate c = record c { sampling_rate_ms = rate }

abbrev pub not_enough_services : Settings → Error
not_enough_services s = record {
  error = ErrorType.error;
  messages =
      append (append "Local port is non-zero, but sample size " (to_string s.sample_size))
        (append " is larger then number of services " (to_string s.echo_server_num_services))
      ∷ [];
}

abbrev pub overall : Settings → ℕ → Option (ℕ × ℕ)
overall s i =
    if s.close_socket_early
    then none
    else some (i, s.sample_size * s.sample_rate_ms + socket_timeout_ms)

abbrev pub blank_result : CollectVector
blank_result = record { addresses = []; sampling_rate_ms = 0 }

module _ {S : Type 0} where
  -- `ClearStage`.
  unfoldable pub clear_stage : Task S → Task S
  unfolding close_all
  clear_stage t = record t {
    handles = close_all t.handles t.socket_list;
    socket_list = [];
    deadline_vector = [];
    global_deadline = none;
    system_error_state = PhysicalDeviceError.no_error;
  }

  abbrev pub run_callback : Stage S → MultiAddressVector → ℕ → ℕ → Option Settings
  run_callback stage collected start now = elim stage.start_stage_cb [
    | none ↦ some stage.settings
    | some cb ↦ cb stage.settings collected start now
  ]

  -- The settings with which a stage runs.
  unfoldable pub settle : Device → Task S → Stage S → Option Settings
  unfolding clamp_if_not_enough_files
  settle device t stage = run_callback stage t.result t.start_time_task device.now >>= λ s.
      if s.sample_rate_ms == 0 || not s.close_socket_early
      then (clamp_if_not_enough_files device.rem95 s.sample_size s.echo_server_num_services >>= λ n.
          some (record s { sample_size = n }))
      else some s

  abbrev pub set_settings : Settings → Stage S → Stage S
  set_settings s stage = record stage { settings = s }

  -- `_stages[stage_index]` as it was updated, and the sampling rate of the result.
  abbrev pub with_settings : Task S → ℕ → Settings → Task S
  with_settings t i s = record t {
    stages = update (set_settings s) i t.stages;
    result = record { stages = update (set_rate s.sample_rate_ms) i t.result.stages };
  }

  -- What is left of `PrepareStage` once the settings are known.
  unfoldable pub plan_stage : Task S → ℕ → Settings → Option (Task S)
  unfolding sockets sockets_for to_string
  plan_stage t i s =
      if s.echo_server_num_services == 0
      then none
      else let n = sockets_for s.sample_size s.echo_server_num_services in
        some (
          if not (s.local_port == 0) && ltb 1 n
          then record (with_settings t i s) { error = not_enough_services s }
          else record (with_settings t i s) {
            socket_list = sockets s i n 0 n;
            global_deadline = overall s i;
          })

  abbrev pub prepare_stage_of : Device → Task S → ℕ → Option (Stage S) → Option (Task S)
  prepare_stage_of device t i none = some t
  prepare_stage_of device t i (some stage) = settle device t stage >>= λ s. plan_stage t i s

  -- `PrepareStage`; the index is a uint16_t.
  unfoldable pub prepare_stage : Device → Task S → ℕ → Option (Task S)
  unfolding clear_stage settle plan_stage
  prepare_stage device t i =
      prepare_stage_of device (clear_stage t) (i % 65536) (get_elem? t.stages (i % 65536))

  -- The members that the constructor sets; the static port keeps its value from one task to the next.
  abbrev pub initial : Device → List (Stage S) → S → ℕ → Task S
  initial device info state current_port = record {
    deadline_vector = [];
    global_deadline = none;
    stages = info;
    socket_list = [];
    system_error_state = PhysicalDeviceError.no_error;
    error = no_error;
    result = record { stages = map (λ _. blank_result) info };
    start_time_task = device.now;
    cond_state = state;
    handles = [];
    current_port = current_port;
    stopped = false;
  }

  -- The constructor.
  unfoldable pub new_task : Device → List (Stage S) → S → ℕ → Option (Task S)
  unfolding prepare_stage
  new_task device info state current_port =
      prepare_stage device (initial device info state current_port) 0

-- ===== src/Collect.antt =====
-- The collection of the addresses that a NAT shows to UDP echo services:
-- AndroidSource/src/Components/UDPCollectTask.cpp and .h, here the structs and the requests of a
-- stage. Lines for the log are left out. `none` is a division by 0.
pub mod Stages
pub mod Requests
pub mod Ports
pub mod Search
pub mod Steps
pub mod Run
pub mod Safe
pub mod Clock
use Prim.Native.String.{◌++◌ as append}
use nat_data_collector.Prelude.{
  ℕ, zero, suc, ◌+◌, ◌-◌, ◌*◌, ◌/◌, ◌%◌, String, Bool, true, false, not, ◌&&◌, ◌||◌, Option, none,
  some, List, [], ◌∷◌, ◌++◌, map, ◌==◌, ltb, if◌then◌else◌, ◌>>=◌, length, get_elem?,
}
use nat_data_collector.Prelude.Decimal.{to_string}
use nat_data_collector.Types.{ErrorType, PhysicalDeviceError}
use nat_data_collector.Errors.{Error, no_error}
use nat_data_collector.Data.{Address, CollectVector, MultiAddressVector}

-- SOCKET_TIMEOUT_MS, which CMakeLists.txt sets.
abbrev pub socket_timeout_ms : ℕ
socket_timeout_ms = 5000

-- The members of a `Stage` that are plain values.
pub record Settings : Type 0 where
  pub echo_server_addr : String
  pub echo_server_start_port : ℕ
  pub echo_server_num_services : ℕ
  pub local_port : ℕ
  pub sample_size : ℕ
  pub sample_rate_ms : ℕ
  pub close_socket_early : Bool

-- A condition has a state of its own, of type `S`: what the lambda captures. `start_stage_cb` gets
-- what was collected, the time at which the task was started, and the time now.
pub record Stage (S : Type 0) : Type 0 where
  pub settings : Settings
  pub cond : Option (S → Address → ℕ → S × Bool)
  pub start_stage_cb : Option (Settings → MultiAddressVector → ℕ → ℕ → Option Settings)

-- A `Socket`; `socket` is the number of a handle, and `timer` the milliseconds after which the timer
-- of the request is due, while it waits. `first` is `local_socket_index`, which the handler of the
-- timer captures.
pub record Socket : Type 0 where
  pub index : ℕ
  pub port : ℕ
  pub max_port : ℕ
  pub socket : Option ℕ
  pub timer : Option ℕ
  pub stage_index : ℕ
  pub is_last_socket : Bool
  pub first : ℕ

-- What the device tells: the value of `rem95` where both numbers of files are known, and the time.
pub record Device : Type 0 where
  pub rem95 : Option ℕ
  pub now : ℕ

-- `ClampIfNotEnoughFiles` of AndroidSource/src/Utilities/NetworkHelpers.h: the sample size that it
-- leaves behind. `rem95` is a uint32_t.
unfoldable pub sockets_for : ℕ → ℕ → ℕ
sockets_for sample_size services =
    if sample_size % services == 0 then sample_size / services else sample_size / services + 1

abbrev pub overridden : ℕ → ℕ → ℕ
overridden rem95 services = ((rem95 + 4294967295) % 4294967296 * services) % 65536

unfoldable pub clamp_if_not_enough_files : Option ℕ → ℕ → ℕ → Option ℕ
unfolding sockets_for
clamp_if_not_enough_files none sample_size services = some sample_size
clamp_if_not_enough_files (some rem95) sample_size zero = none
clamp_if_not_enough_files (some rem95) sample_size (suc n) =
    some (
      if ltb rem95 (sockets_for sample_size (suc n)) then overridden rem95 (suc n) else sample_size)

-- The sockets of a stage: the loop over the requests of a local socket, and the loop over the local
-- sockets, each with the number of its rounds that remain. The timer is the one of the new element.
unfoldable pub min : ℕ → ℕ → ℕ
min a b = if ltb b a then b else a

-- The element for one request: `clamped` is `remaining_requests_clamped`. The product of the timer is
-- an int in the source, and has no bound here.
abbrev pub request : Settings → ℕ → ℕ → ℕ → Bool → ℕ → Socket
request s stage_index first clamped is_last req =
    let index = (first + req) % 65536 in
    record {
      index = index;
      port = (s.echo_server_start_port + req) % 65536;
      max_port = (s.echo_server_start_port + clamped - 1) % 65536;
      socket = none;
      timer = some (index * s.sample_rate_ms);
      stage_index = stage_index;
      is_last_socket = is_last;
      first = first;
    }

unfoldable pub requests : Settings → ℕ → ℕ → ℕ → Bool → ℕ → ℕ → List Socket
requests s stage_index first clamped is_last req zero = []
requests s stage_index first clamped is_last req (suc n) =
    request s stage_index first clamped is_last req
    ∷ requests s stage_index first clamped is_last (suc req) n

unfoldable pub socket_requests : Settings → ℕ → ℕ → ℕ → List Socket
unfolding requests min
socket_requests s stage_index sockets_in_stage sock =
    let services = s.echo_server_num_services in
    let remaining = (s.sample_size - sock * services) % 65536 in
    let clamped = min remaining services in
    requests s stage_index (sock * services % 65536) clamped (sock == sockets_in_stage - 1) 0
      clamped

unfoldable pub sockets : Settings → ℕ → ℕ → ℕ → ℕ → List Socket
unfolding socket_requests
sockets s stage_index sockets_in_stage sock zero = []
sockets s stage_index sockets_in_stage sock (suc n) =
    socket_requests s stage_index sockets_in_stage sock
    ++ sockets s stage_index sockets_in_stage (suc sock) n

-- ===== src/CollectPlan.antt =====
-- The stages of a collection: `CollectingConfig` of Shared/Data/Address.h, and `CalculateCollectStages`
-- of AndroidSource/src/Components/NatTraverserClient.cpp. `none` is a division by 0, a read behind a
-- vector, or an exception of the JSON library. Lines for the log are left out.
pub mod Stages
pub mod Dynamic
pub mod Counts
use nat_data_collector.Prelude.{
  ℕ, zero, suc, ◌+◌, ◌-◌, ◌*◌, ◌/◌, ◌%◌, String, Bool, true, false, not, ◌&&◌, ◌||◌, Option, none,
  some, List, [], ◌∷◌, ◌++◌, map, length, get_elem?, is_some, ◌==◌, ltb, if◌then◌else◌, ◌>>=◌,
}
use nat_data_collector.Types.{ErrorType, Transaction}
use nat_data_collector.Errors.{Error, failed}
use nat_data_collector.Json.{Json, Codec}
use nat_data_collector.Protocol.{DataPackage, create_data, get_object}
use nat_data_collector.Data.{Address, CollectVector, MultiAddressVector, ClientMetaData}
use nat_data_collector.Predictor.{config_index}
use nat_data_collector.Collect.{Settings, Stage, min}
use nat_data_collector.Collect.Stages.{update}

pub record DynamicStage : Type 0 where
  pub k_multiple : ℕ
  pub max_sockets : ℕ
  pub max_rate_ms : ℕ
  pub start_echo_service : ℕ
  pub num_echo_services : ℕ
  pub local_port : ℕ
  pub close_sockets_early : Bool
  pub use_shutdown_condition : Bool

pub record OverrideStage (J : Type 0) : Type 0 where
  pub stage_index : ℕ
  pub equal_conditions : J
  pub override_fields : J

pub record StageConfig : Type 0 where
  pub sample_size : ℕ
  pub sample_rate_ms : ℕ
  pub start_echo_service : ℕ
  pub num_echo_services : ℕ
  pub local_port : ℕ
  pub close_sockets_early : Bool
  pub use_shutdown_condition : Bool

-- `CollectingConfig::Stage`.
pub record StageConfigs : Type 0 where
  pub configs : List StageConfig

pub record CollectingConfig (J : Type 0) : Type 0 where
  pub coll_name : String
  pub delay_collection_steps_ms : ℕ
  pub stages : List StageConfigs
  pub added_dynamic_stages : List DynamicStage
  pub override_stages : List (OverrideStage J)

-- What the function takes from the JSON library besides member access: `items`, the comparison of
-- documents, and `update`, which may throw.
pub record Objects (J : Type 0) : Type 0 where
  pub json : Json J
  pub items : J → List (String × J)
  pub equal : J → J → Bool
  pub update_fields : J → J → Option J
  pub config : Codec J StageConfig
  pub meta_data : Codec J ClientMetaData

-- The ports of the first stage, which the copies of the condition share.
abbrev pub Ports : Type 0
Ports = List ℕ

unfoldable pub contains : Ports → ℕ → Bool
contains [] p = false
contains (q ∷ qs) p = q == p || contains qs p

-- The insertion into a `std::set`; the order of the ports does not matter here.
abbrev pub insert_port : Ports → ℕ → Ports
insert_port ports p = if contains ports p then ports else p ∷ ports

-- `should_shutdown`.
unfoldable pub should_shutdown : Ports → Address → ℕ → Ports × Bool
unfolding contains
should_shutdown ports a zero = (insert_port ports a.port, false)
should_shutdown ports a (suc zero) = (ports, contains ports a.port)
should_shutdown ports a (suc (suc n)) = (ports, false)

abbrev pub condition : Bool → Option (Ports → Address → ℕ → Ports × Bool)
condition use_shutdown_condition = if use_shutdown_condition then some should_shutdown else none

unfoldable pub count_addresses : List CollectVector → ℕ
count_addresses [] = 0
count_addresses (c ∷ cs) = length c.addresses + count_addresses cs

-- `startCB`; the sum, the duration and the product are of type uint32_t.
abbrev pub dynamic_settings : DynamicStage → Settings → ℕ → ℕ → Option Settings
dynamic_settings stage curr zero task_duration = none
dynamic_settings stage curr (suc n) task_duration = some (record curr {
  sample_size = min (stage.k_multiple * suc n % 4294967296) stage.max_sockets % 65536;
  sample_rate_ms = min (task_duration / suc n) stage.max_rate_ms % 65536;
})

-- The milliseconds since the start as a uint32_t; a clock that was set back gives a negative count,
-- which wraps.
abbrev pub duration_since : ℕ → ℕ → ℕ
duration_since start now =
    if ltb now start
    then (4294967296 - (start - now) % 4294967296) % 4294967296
    else (now - start) % 4294967296

unfoldable pub start_dynamic :
    DynamicStage → Settings → MultiAddressVector → ℕ → ℕ → Option Settings
unfolding count_addresses min
start_dynamic stage curr collected start now =
    dynamic_settings stage curr (count_addresses collected.stages % 4294967296)
      (duration_since start now)

-- The stage of a configuration, and a dynamic one.
abbrev pub stage_of : String → StageConfig → Stage Ports
stage_of server_address config = record {
  settings = record {
    echo_server_addr = server_address;
    echo_server_start_port = config.start_echo_service;
    echo_server_num_services = config.num_echo_services;
    local_port = config.local_port;
    sample_size = config.sample_size;
    sample_rate_ms = config.sample_rate_ms;
    close_socket_early = config.close_sockets_early;
  };
  cond = condition config.use_shutdown_condition;
  start_stage_cb = none;
}

abbrev pub dynamic_stage_of : String → DynamicStage → Stage Ports
dynamic_stage_of server_address stage = record {
  settings = record {
    echo_server_addr = server_address;
    echo_server_start_port = stage.start_echo_service;
    echo_server_num_services = stage.num_echo_services;
    local_port = stage.local_port;
    sample_size = 0;
    sample_rate_ms = 0;
    close_socket_early = stage.close_sockets_early;
  };
  cond = condition stage.use_shutdown_condition;
  start_stage_cb = some (start_dynamic stage);
}

-- The loop that compares the sizes of neighbours.
unfoldable pub same_sizes : List StageConfigs → Bool
same_sizes [] = true
same_sizes (s ∷ []) = true
same_sizes (s ∷ t ∷ rest) = length t.configs == length s.configs && same_sizes (t ∷ rest)

-- The stages of the configuration at an index.
unfoldable pub configured : String → ℕ → List StageConfigs → Option (List (Stage Ports))
configured server_address i [] = some []
configured server_address i (s ∷ rest) = get_elem? s.configs i >>= λ config.
    configured server_address i rest >>= λ stages. some (stage_of server_address config ∷ stages)

-- The configuration of a stage as it is.
abbrev pub config_of : Stage Ports → StageConfig
config_of stage = record {
  sample_size = stage.settings.sample_size;
  sample_rate_ms = stage.settings.sample_rate_ms;
  start_echo_service = stage.settings.echo_server_start_port;
  num_echo_services = stage.settings.echo_server_num_services;
  local_port = stage.settings.local_port;
  close_sockets_early = stage.settings.close_socket_early;
  use_shutdown_condition = is_some stage.cond;
}

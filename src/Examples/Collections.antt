-- ===== src/Examples/Collections.antt =====
-- Concrete collections, logs and timers.
use nat_data_collector.Prelude.{
  Option, none, some, ℕ, ◌+◌, ◌-◌, ◌<◌, ◌≤◌, ◌≡◌, refl, true, false, none, some, List, [], ◌∷◌,
  length, ltb, if◌then◌else◌, map, ◌++◌, Gives, arith,
}
use nat_data_collector.Types.{ErrorType, NatType, Transaction}
use nat_data_collector.Errors.{ErrorCode, from_asio}
use nat_data_collector.Json.{Conversion}
use nat_data_collector.Protocol.{DataPackage}
use nat_data_collector.Data.{
  blank_address, CollectVector, MultiAddressVector, blank_client_meta_data,
}
use nat_data_collector.ClientLog.{Log, LogWarn, Entry, entry, new_log, log_all, set_log_buffer_size}
use nat_data_collector.ClientLog.History.{last_lines, log_all-last_lines}
use nat_data_collector.Collect.{Settings, Stage, Device, sockets, sockets_for}
use nat_data_collector.Collect.Stages.{Task}
use nat_data_collector.Collect.Ports.{search, in_use}
use nat_data_collector.Collect.Requests.{numbered_from, sockets_lem}
use nat_data_collector.Collect.Search.{search_lem, search-all}
use nat_data_collector.Collect.Steps.{round_trip, time_stamp_only_ms}
use nat_data_collector.Collect.Clock.{round_trip_lem}
use nat_data_collector.Collect.Run.{
  Answers, Event, request_due, sent, received, deadline_due, Formats, start_collect_task,
}
use nat_data_collector.Collect.Safe.{WellFormed}
use nat_data_collector.Collect.Safe.Sockets.{FreePort}
use nat_data_collector.Collect.Safe.Kept.{start_collect_task-WellFormed}
use nat_data_collector.Classifier.{get_most_frequent_nat_type}
use nat_data_collector.Classifier.Classify.{classified, sample_of}
use nat_data_collector.Classifier.Verdict.{all_pairs, classified_lem}
use nat_data_collector.CollectPlan.{
  DynamicStage, StageConfig, StageConfigs, CollectingConfig, Objects, start_dynamic,
  count_addresses,
}
use nat_data_collector.CollectPlan.Dynamic.{Limited, start_dynamic-Limited}
use nat_data_collector.Examples.{Doc, nil, number, doc_json, constant}

abbrev three_lines : List Entry
three_lines = entry LogWarn.info "one" ∷ entry LogWarn.error "two" ∷ entry LogWarn.info "three" ∷ []

log_all-last_lines_example :
    (l : Log) × (log_all (set_log_buffer_size new_log 2) three_lines ≡ some l)
    × (l.log_buffer ≡ last_lines 2 three_lines)
log_all-last_lines_example = log_all-last_lines 2 three_lines (omega arith)

-- Seven requests to three services.
abbrev seven : Settings
seven = record {
  echo_server_addr = "1.2.3.4";
  echo_server_start_port = 10000;
  echo_server_num_services = 3;
  local_port = 0;
  sample_size = 7;
  sample_rate_ms = 10;
  close_socket_early = true;
}

sockets_lem_example : sockets seven 0 3 0 3 ≡ numbered_from seven 0 0 7
unfolding sockets_for
sockets_lem_example = sockets_lem seven 0 (omega arith) (omega arith)

abbrev low_ports_used : ℕ → ErrorCode
low_ports_used p = if ltb p 1030 then ErrorCode.address_in_use else ErrorCode.success

search_lem_example :
    (q : ℕ) × (search 64511 low_ports_used 7 ≡ some q)
    × (1025 ≤ q)
    × (q < 65536)
    × (in_use (low_ports_used q) ≡ false)
search_lem_example = search_lem low_ports_used 7 2000 (omega arith) (omega arith) (omega arith) refl

abbrev all_used : ℕ → ErrorCode
all_used p = ErrorCode.address_in_use

search-all_example : search 90000 all_used 7 ≡ none
search-all_example = search-all 90000 all_used 7 (omega arith) (λ q lo hi. refl)

-- A reply after 120 ms, while the time stamp starts again.
round_trip_lem_example : round_trip (9950 + 120) (time_stamp_only_ms 9950) ≡ 10000 - 120
round_trip_lem_example = round_trip_lem 9950 120 (omega arith)

abbrev device : Device
device = record { rem95 = some 1000; now = 5000 }

abbrev seven_stage : Stage ℕ
seven_stage = record { settings = seven; cond = none; start_stage_cb = none }

abbrev formats : Formats Doc
formats = record {
  json = doc_json;
  from_msgpack = λ bytes. number (length bytes);
  address = constant blank_address;
  result = constant (record { stages = [] });
}

abbrev answers : Answers
answers = record {
  opened = ErrorCode.success;
  bind = low_ports_used;
  shutdown = false;
  address = ErrorCode.success;
  message = "";
  time = 5001;
}

abbrev events : List Event
events =
    request_due 0 answers
    ∷ sent 0 ErrorCode.success ""
    ∷ received 0 ErrorCode.success "" (1 ∷ []) device
    ∷ deadline_due 0 device
    ∷ request_due 1 answers
    ∷ []

start_collect_task-WellFormed_example :
    Gives (λ r. WellFormed r.0) (start_collect_task formats device (seven_stage ∷ []) 0 2000 events)
start_collect_task-WellFormed_example =
    let free : FreePort low_ports_used = record {
      free = 2000;
      low = omega arith;
      high = omega arith;
      not_used = refl;
    } in
    start_collect_task-WellFormed formats device (seven_stage ∷ []) 0 2000 events
      (record { services = omega arith; callback = λ cb e s c a b h. absurd (cc e) }, tt)
      (omega arith) (free, (tt, (tt, (tt, (free, tt)))))

-- The collection of these events has one address, and the socket of the first request is closed.
abbrev summary : Option (Task ℕ × DataPackage Doc) → List ℕ
summary none = []
summary (some (t, pkg)) =
    map (λ c. length c.addresses) t.result.stages ++ map (λ h. h.bound) t.handles

events-summary :
    summary (start_collect_task formats device (seven_stage ∷ []) 0 2000 events) ≡ 1 ∷ 2000 ∷ []
unfolding start_collect_task doc_json from_asio
events-summary = refl

abbrev stage_of_two : CollectVector
stage_of_two = record { addresses = blank_address ∷ blank_address ∷ []; sampling_rate_ms = 0 }

abbrev stage_of_one : CollectVector
stage_of_one = record { addresses = blank_address ∷ []; sampling_rate_ms = 0 }

abbrev nat_types : Conversion Doc NatType
nat_types = record { blank = NatType.undefined; to_json = λ t. nil; from_json = λ d. none }

classified_lem_example :
    (pkg : DataPackage Doc) × (classified formats nat_types 50 (stage_of_two ∷ stage_of_one ∷ [])
      ≡ some pkg)
    × (pkg.error.error ≡ ErrorType.warning)
    × (pkg.meta_data
        ≡ formats.json.put formats.json.null "nat_type" (
            nat_types.to_json (
              get_most_frequent_nat_type
                (map (λ c. (sample_of 50 c.addresses).0) (stage_of_two ∷ stage_of_one ∷ [])))))
    × (pkg.transaction ≡ Transaction.client_receive_nat_type)
unfolding all_pairs
classified_lem_example = classified_lem formats nat_types 50 (stage_of_two ∷ stage_of_one ∷ [])

abbrev dynamic : DynamicStage
dynamic = record {
  k_multiple = 3;
  max_sockets = 10000;
  max_rate_ms = 35;
  start_echo_service = 10000;
  num_echo_services = 1000;
  local_port = 0;
  close_sockets_early = true;
  use_shutdown_condition = false;
}

abbrev collected : MultiAddressVector
collected = record { stages = stage_of_two ∷ [] }

start_dynamic-Limited_example :
    Gives (Limited dynamic 2 400 seven) (start_dynamic dynamic seven collected 100 500)
unfolding count_addresses
start_dynamic-Limited_example =
    start_dynamic-Limited dynamic seven collected 100 500 (omega arith) (omega arith)

abbrev small_config : StageConfig
small_config = record {
  sample_size = 7;
  sample_rate_ms = 10;
  start_echo_service = 10000;
  num_echo_services = 3;
  local_port = 0;
  close_sockets_early = true;
  use_shutdown_condition = true;
}

abbrev two_configs : StageConfigs
two_configs = record { configs = small_config ∷ small_config ∷ [] }

abbrev config : CollectingConfig Doc
config = record {
  coll_name = "samples";
  delay_collection_steps_ms = 180000;
  stages = two_configs ∷ two_configs ∷ [];
  added_dynamic_stages = dynamic ∷ [];
  override_stages = record { stage_index = 2; equal_conditions = nil; override_fields = nil } ∷ [];
}

abbrev pub objects : Objects Doc
objects = record {
  json = doc_json;
  items = λ d. [];
  equal = λ d e. true;
  update_fields = λ d e. some d;
  config = constant small_config;
  meta_data = constant (blank_client_meta_data NatType.undefined);
}

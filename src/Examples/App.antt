-- ===== src/Examples/App.antt =====
-- Examples for the app: hole punching, its model, its states and the scores.
use mathlib.Core.List.{Perm}
use nat_data_collector.Prelude.{
  ℕ, ◌≤◌, ◌≡◌, refl, ◌*◌, ◌+◌, true, none, some, List, [], ◌∷◌, ◌++◌, arith, Gives, Whenever,
}
use nat_data_collector.Types.{ErrorType, NatType, ConnectionType, Transaction}
use nat_data_collector.Errors.{ErrorCode, no_error}
use nat_data_collector.Protocol.{DataPackage, empty_package, get_object}
use nat_data_collector.Data.{
  blank_address, ClientId, blank_ip_meta_data, blank_client_meta_data, blank_traversal_client,
}
use nat_data_collector.Collect.{Settings, clamp_if_not_enough_files}
use nat_data_collector.Client.{Ends, invalid, running, failure, new_client}
use nat_data_collector.Client.Requests.{Formats}
use nat_data_collector.Holepunch.{
  Config, Opening, Event, Formats as HoleFormats, blank_result, start_holepunching,
}
use nat_data_collector.Holepunch.Safety.{Outcome, start_holepunching-Outcome}
use nat_data_collector.Model.{Model, PopUpState, Argument, new_model, subscribe_pop_up_event}
use nat_data_collector.Model.Popups.{
  Request, push, pop, pushed, queue_run, perform_all, lives, front_begins, perform_all-queue,
}
use nat_data_collector.Traverse.Run.{traversal_config, clear_pop_ups}
use nat_data_collector.Traverse.Plan.{traversal_config-deadline, traversal_config-same_deadline}
use nat_data_collector.Scoreboard.{Scoreboard, Codecs as ScoreCodecs, handle_transaction}
use nat_data_collector.Scoreboard.Scores.{IsDescending, handle_transaction-scores}
use nat_data_collector.UserData.{blank_information, Writing}
use nat_data_collector.CollectSamples.{
  blank_config, Step as CollectStep, Codecs as CollectCodecs, Surroundings as CollectSurroundings,
  App as CollectApp, new_collect_samples, on_timer, on_package,
}
use nat_data_collector.CollectSamples.Quiet.{Rests as CollectRests}
use nat_data_collector.CollectSamples.Acts.{Act as CollectAct, run_collection, run_collection-Rests}
use nat_data_collector.CollectSamples.Timers.{on_timer-reconnects}
use nat_data_collector.Timer.{has_expired}
use nat_data_collector.Traverse.{App, Codecs as TraverseCodecs, Surroundings, blank_traverse}
use nat_data_collector.Traverse.Quiet.{Rests}
use nat_data_collector.Traverse.Acts.{Act, enter, frame, run_traversal, run_traversal-Rests}
use nat_data_collector.Traverse.Popups.{clear_pop_ups-empty}
use nat_data_collector.Examples.Collections.{objects}
use nat_data_collector.Examples.{
  Doc, nil, number, member, doc_json, doc_number, constant, doc_wire, texts, numbers, flags,
  meeting,
}

abbrev slow : Settings
slow = record {
  echo_server_addr = "1.2.3.4";
  echo_server_start_port = 10000;
  echo_server_num_services = 5;
  local_port = 0;
  sample_size = 100;
  sample_rate_ms = 10;
  close_socket_early = true;
}

abbrev planned : Config × Settings
planned = (
  record {
    target_client = blank_address;
    traversal_attempts = 100;
    traversal_rate = 60;
    local_port = 0;
    deadline_duration_ms = 11000;
    keep_alive_rate_ms = 0;
  },
  record slow { sample_rate_ms = 60 },
)

traversal_config-deadline_example :
    (100 * 60 + 5000 ≤ 11000) × (100 * 10 + 5000 ≤ 11000) × (200 * 30 + 5000 ≤ 11000)
unfolding traversal_config
traversal_config-deadline_example =
    traversal_config-deadline NatType.random_sym blank_address 200 30 1234 slow {c = planned.0}
      {s = planned.1} refl

-- Callbacks 1 and 2 see a window begin and end.
abbrev windows : Model
unfolding subscribe_pop_up_event
windows =
    subscribe_pop_up_event (new_model NatType.undefined) PopUpState.pop_up (some 1) none (some 2)

abbrev requests : List Request
requests = push PopUpState.pop_up ∷ push PopUpState.wait ∷ pop ∷ push PopUpState.pop_up ∷ []

perform_all-queue_example :
    let q = queue_run requests ([], []) in
    (perform_all {J = Doc} requests (windows, [])
      ≡ (record windows { popup_queue = q.0 }, lives windows q.1 ++ front_begins windows q.0))
    × (q.1 ++ q.0 ≡ pushed requests)
unfolding windows
perform_all-queue_example = perform_all-queue {J = Doc} windows requests refl

-- A socket that gets the index 4 from the other host.
abbrev hole_formats : HoleFormats Doc
hole_formats = record {
  json = doc_json;
  from_msgpack = λ bytes. member "send_id" (number 4) nil;
  number = numbers;
  result = constant blank_result;
}

abbrev two_attempts : Config
two_attempts = record {
  target_client = record blank_address { ip_address = "1.2.3.4"; port = 4000 };
  traversal_attempts = 2;
  traversal_rate = 10;
  local_port = 0;
  deadline_duration_ms = 6000;
  keep_alive_rate_ms = 0;
}

abbrev all_right : ℕ → Opening
all_right i = record {
  address = ErrorCode.success;
  message = "";
  opened = ErrorCode.success;
  bound = ErrorCode.success;
}

abbrev hole_events : List Event
hole_events =
    Event.request_due 0 ErrorCode.success ""
    ∷ Event.sent 0 ErrorCode.success ""
    ∷ Event.received 0 ErrorCode.success "" (record {
      bytes = 7 ∷ [];
      other_endpoint = record { address = "5.6.7.8"; port = 9 };
      local_port = 3;
    })
    ∷ Event.answered ErrorCode.success
    ∷ []

start_holepunching-Outcome_example :
    Gives
      (Outcome hole_formats 2 hole_events)
      (start_holepunching hole_formats none two_attempts all_right ErrorCode.success "" hole_events)
unfolding clamp_if_not_enough_files doc_number doc_json
start_holepunching-Outcome_example =
    start_holepunching-Outcome hole_formats none two_attempts all_right ErrorCode.success ""
      hole_events refl (tt, (tt, ((λ e. tt), (tt, tt))))

abbrev slower : Settings
slower = record slow { sample_size = 200; sample_rate_ms = 30 }

abbrev answering : Config × Settings
answering = (
  record {
    target_client = blank_address;
    traversal_attempts = 200;
    traversal_rate = 30;
    local_port = 0;
    deadline_duration_ms = 11000;
    keep_alive_rate_ms = 0;
  },
  slower,
)

traversal_config-same_deadline_example :
    planned.0.deadline_duration_ms ≡ answering.0.deadline_duration_ms
unfolding traversal_config
traversal_config-same_deadline_example =
    traversal_config-same_deadline NatType.random_sym NatType.random_sym blank_address blank_address
      1234 1235 slow slower {c = planned.0} {d = answering.0} {s = planned.1} {t = answering.1} refl
      refl

abbrev doc_formats : Formats Doc
doc_formats = record {
  wire = doc_wire;
  text = texts;
  number = numbers;
  lobby = constant meeting;
  address = constant blank_address;
}

abbrev two_users : List ClientId
two_users =
    record { android_id = "a"; username = "ada"; show_score = true; uploaded_samples = 3 }
    ∷ record { android_id = "b"; username = "bob"; show_score = true; uploaded_samples = 8 }
    ∷ []

abbrev score_codecs : ScoreCodecs Doc
score_codecs = record {
  formats = doc_formats;
  client_id =
      constant
        (record { android_id = "a"; username = "ada"; show_score = true; uploaded_samples = 3 });
  scores = record {
    fresh = [];
    serialize = λ l. (nil, []);
    deserialize = λ l j. (two_users, []);
    deserialize_text = λ l s. (l, []);
  };
}

abbrev scores_package : DataPackage Doc
unfolding empty_package
scores_package = record (empty_package doc_json) {
  transaction = Transaction.client_receive_scores;
  content = number 1;
  error = record { error = ErrorType.answer; messages = [] };
}

abbrev fine_ends : Ends
fine_ends = record { rw = no_error; analyze = no_error; traverse = no_error; http = no_error }

abbrev no_scores : Scoreboard
no_scores = record { scores = []; client = new_client }

handle_transaction-scores_example :
    Gives
      (λ u.
        IsDescending u.scores
        × Perm u.scores two_users
        × (u.client.rw_future ≡ invalid)
        × (u.client.analyze_nat_future ≡ invalid)
        × (u.client.traverse_nat_future ≡ invalid)
        × (u.client.http_future ≡ invalid)
        × (u.client.read_queue ≡ none)
        × (u.client.write_queue ≡ none))
      (handle_transaction score_codecs windows blank_information fine_ends scores_package no_scores)
unfolding get_object scores_package empty_package
handle_transaction-scores_example =
    handle_transaction-scores score_codecs windows blank_information fine_ends scores_package
      no_scores two_users refl refl refl

-- The traversal of an app whose callbacks do nothing.
abbrev traverse_codecs : TraverseCodecs Doc
traverse_codecs = record {
  formats = doc_formats;
  objects = objects;
  storage = record {
    json = doc_json;
    information = constant blank_information;
    serialize_string = λ i. ("", []);
  };
  meta_data = constant blank_ip_meta_data;
  config = constant blank_config;
  ports = constant (record { stages = [] });
  lobbies = constant [];
  result = constant blank_result;
  traversal_client = constant blank_traversal_client;
  nat_type = record {
    blank = NatType.undefined;
    to_json = λ t. nil;
    from_json = λ j. some NatType.cone;
  };
  flag = flags;
}

abbrev no_callbacks : ℕ → Argument Doc → Model × App Doc (Unit {0}) → Model × App Doc (Unit {0})
no_callbacks cb a w = w

abbrev surroundings : Surroundings
surroundings = record {
  now = 100;
  time_stamp = λ t. "now";
  connect_type = ConnectionType.wifi;
  rand_max = 2147483647;
  random = λ i. i;
  draws = 10;
  pops = 5;
  writing = Writing.done;
  ends = fine_ends;
}

abbrev app_state : Model × App Doc (Unit {0})
unfolding windows
app_state = (
  windows,
  record {
    traverse = blank_traverse traverse_codecs new_client;
    user_data = record {
      info = record blank_information { username = "ada" };
      external_files_dir = some "/data";
    };
    files = λ p. none;
    rest = tt;
  },
)

abbrev traverse_acts : List (Surroundings × Act Doc)
traverse_acts = (surroundings, enter) ∷ (surroundings, frame 20) ∷ (surroundings, frame 20000) ∷ []

run_traversal-Rests_example :
    Whenever (λ u. Rests u.1) (run_traversal traverse_codecs no_callbacks traverse_acts app_state)
unfolding app_state windows
run_traversal-Rests_example =
    run_traversal-Rests traverse_codecs no_callbacks (λ cb a w r. r) traverse_acts app_state
      (λ e. record {
        no_write_queue = refl;
        no_read_queue = refl;
        no_flag = refl;
        no_rw = refl;
        no_analyze = refl;
        no_traverse = refl;
        no_http = refl;
      })

abbrev two_windows : Model × App Doc (Unit {0})
unfolding app_state
two_windows =
    (record app_state.0 { popup_queue = PopUpState.pop_up ∷ PopUpState.wait ∷ [] }, app_state.1)

clear_pop_ups-empty_example :
    Gives
      (λ u. u.0.popup_queue ≡ [])
      (clear_pop_ups traverse_codecs no_callbacks surroundings 2 two_windows)
unfolding two_windows app_state windows
clear_pop_ups-empty_example =
    clear_pop_ups-empty traverse_codecs no_callbacks (λ cb a w. refl) surroundings 2 two_windows
      (omega arith)

-- The collection of samples, and the first steps of the app.
abbrev collect_codecs : CollectCodecs Doc
collect_codecs = record {
  formats = doc_formats;
  objects = objects;
  meta_data = constant blank_ip_meta_data;
  config = constant blank_config;
  ports = constant (record { stages = [] });
  sample = constant (record {
    meta_data = blank_client_meta_data NatType.undefined;
    timestamp = "";
    connection_type = ConnectionType.wifi;
    stage_results = [];
    delay_between_samples_ms = 0;
  });
  nat_type = traverse_codecs.nat_type;
  debug_config = blank_config;
}

abbrev collect_surroundings : CollectSurroundings
collect_surroundings = record {
  now = 100;
  time_stamp = "now";
  connect_type = ConnectionType.wifi;
  rand_max = 2147483647;
  random = 7;
  ends = fine_ends;
}

abbrev collect_state : Model × CollectApp Doc (Unit {0})
unfolding windows
collect_state = (windows, record { collect = new_collect_samples; rest = tt })

abbrev failed_package : DataPackage Doc
unfolding empty_package
failed_package = record (empty_package doc_json) { error = failure "no route" }

on_timer-reconnects_example :
    Gives
      (λ u.
        (u.1.collect.current ≡ CollectStep.disconnected)
        × (u.1.collect.config ≡ blank_config)
        × (has_expired u.1.collect.client.timer 400000 ≡ true)
        × Gives
            (λ v.
              (v.1.collect.current ≡ CollectStep.connected_idle)
              × (v.1.collect.client.rw_future ≡ running)
              × (v.1.collect.client.read_queue ≡ some [])
              × (v.1.collect.client.write_queue ≡ some []))
            (on_timer collect_codecs (record collect_surroundings { now = 400000 }) u))
      (on_package collect_codecs collect_surroundings failed_package collect_state)
unfolding failed_package collect_state empty_package
on_timer-reconnects_example =
    on_timer-reconnects collect_codecs collect_surroundings
      (record collect_surroundings { now = 400000 }) failed_package collect_state refl (omega arith)

run_collection-Rests_example :
    Whenever
      (λ u. CollectRests u.1)
      (run_collection collect_codecs
        (λ cb a w. w)
        ((collect_surroundings, CollectAct.enter) ∷ (collect_surroundings, CollectAct.leave) ∷ [])
        collect_state)
unfolding collect_state windows
run_collection-Rests_example =
    run_collection-Rests collect_codecs (λ cb a w. w) (λ cb a w r. r)
      ((collect_surroundings, CollectAct.enter) ∷ (collect_surroundings, CollectAct.leave) ∷ [])
      collect_state
      (λ e. record {
        no_write_queue = refl;
        no_read_queue = refl;
        no_flag = refl;
        no_rw = refl;
        no_analyze = refl;
        no_traverse = refl;
        no_http = refl;
      })

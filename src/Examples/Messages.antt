-- ===== src/Examples/Messages.antt =====
-- Packages whose bytes come back: a library that serializes bare packages with bytes for content.
use text.Mathlib.Text.{◌==◌ as str_eq}
use text.Mathlib.TextEquality.{eq_iff}
use nat_data_collector.Prelude.{
  if◌then◌else◌, ◌==◌, none, ◌<◌, ◌^◌, ℕ, String, ◌≡◌, refl, sym, ap, length-append, true, false,
  Bool, some, List, [], ◌∷◌, length, is_empty, arith, Bool-cases, inl, inr,
}
use nat_data_collector.Types.{ErrorType, Transaction}
use nat_data_collector.Json.{Json, Codec}
use nat_data_collector.Protocol.{DataPackage, empty_package, app_version}
use nat_data_collector.Errors.{ErrorCode, no_error}
use nat_data_collector.Data.{Address, user, blank_traversal_result, blank_address}
use nat_data_collector.Client.{Client, Ends, running, ready, new_client}
use nat_data_collector.Client.Requests.{Formats}
use nat_data_collector.Client.Tasks.{collect_ends, create_timer_async}
use nat_data_collector.Client.Publishing.{read_package, publish_transaction}
use nat_data_collector.Client.Connection.{Connection, Reading}
use nat_data_collector.Client.Connection.Overlap.{rounds, rounds-in_flight}
use nat_data_collector.Collect.{Socket}
use nat_data_collector.Collect.Stages.{Task, initial}
use nat_data_collector.Collect.Steps.{receive_address}
use nat_data_collector.Collect.Run.{Formats as CollectFormats, send_request, handle_receive}
use nat_data_collector.Echo.{handle_receive as echo}
use nat_data_collector.Echo.Answers.{handle_receive-answer}
use nat_data_collector.Client.Delivery.{read_package-collect_ends}
use nat_data_collector.Client.Ready.{IsServed}
use nat_data_collector.Client.Ready.Acts.{
  Act, act_all, subscribes, connects, collects, collect_done, updates, disconnects, connection_made,
  reads, predicts, prediction_done, connection_done, act_all-IsServed,
}
use nat_data_collector.Framing.{frame, encode_msg_length, read, Read}
use nat_data_collector.Framing.Header.{stoi-encode_msg_length}
use nat_data_collector.Framing.Package.{Wire, ContentSize, compress, decompress}
use nat_data_collector.Framing.Package.RoundTrip.{IsWire, decompress-compress}

abbrev bytes_json : Json (List ℕ)
bytes_json = record {
  null = [];
  is_null = is_empty;
  open_object = is_empty;
  contains = λ o k. false;
  at = λ o k. [];
  put = λ o k v. o;
  dump = λ o. "";
  parse = λ s. [];
}

-- A bare package is its content behind a one; every other one is refused.
unfoldable parts :
    List ℕ → List ℕ → Transaction → ErrorType → List String → Bool → List ℕ × List String
parts content [] Transaction.no_transaction ErrorType.ok [] true = (1 ∷ content, [])
parts _ _ _ _ _ _ = (1 ∷ [], "not bare" ∷ [])

abbrev serialize_bare : DataPackage (List ℕ) → List ℕ × List String
unfolding parts
serialize_bare pkg =
    parts pkg.content pkg.meta_data pkg.transaction pkg.error.error pkg.error.messages
      (str_eq pkg.version app_version)

abbrev bare : List ℕ → DataPackage (List ℕ)
unfolding empty_package
bare content = record (empty_package bytes_json) { content = content }

abbrev without_head : List ℕ → List ℕ
without_head [] = []
without_head (b ∷ bs) = bs

abbrev no_errors : DataPackage (List ℕ) → DataPackage (List ℕ) × List String
no_errors pkg = (pkg, [])

abbrev read_bare : List ℕ → DataPackage (List ℕ) × List String
unfolding bare
read_bare j = no_errors (bare (without_head j))

abbrev bytes_wire : Wire (List ℕ)
unfolding serialize_bare read_bare
bytes_wire = record {
  json = bytes_json;
  serialize = serialize_bare;
  deserialize = λ pkg j. read_bare j;
  to_msgpack = λ j. 9 ∷ j;
  from_msgpack = without_head;
  zstd_compress = some;
  zstd_content_size = λ bytes. ContentSize.known (length bytes);
  zstd_decompress = λ bytes n. some bytes;
}

parts_back :
    (content meta : List ℕ) (t : Transaction) (e : ErrorType) (messages : List String)
    (version : String)
    → (parts content meta t e messages (str_eq version app_version)).1 ≡ []
    → read_bare (parts content meta t e messages (str_eq version app_version)).0
      ≡ no_errors (record {
        content = content;
        meta_data = meta;
        transaction = t;
        error = record { error = e; messages = messages };
        version = version;
      })
unfolding parts read_bare bare empty_package
parts_back content [] Transaction.no_transaction ErrorType.ok [] version h =
    elim (Bool-cases (str_eq version app_version)) [
      | inr e ↦ cc (rw e at h)
      | inl e ↦ rw e (
          ap (λ v. no_errors (record (bare content) { version = v }))
            (sym ((eq_iff version app_version).0 e)))
    ]
parts_back content _ t e messages version h = cc h

parts_some :
    (content meta : List ℕ) (t : Transaction) (e : ErrorType) (messages : List String) (b : Bool)
    → is_empty (parts content meta t e messages b).0 ≡ false
unfolding parts
parts_some content [] Transaction.no_transaction ErrorType.ok [] true = refl
parts_some content _ t e messages b = refl

bytes_wire-IsWire : IsWire bytes_wire
unfolding bytes_wire serialize_bare read_bare bare parts empty_package
bytes_wire-IsWire = record {
  serialize_back = λ pkg from h.
      parts_back pkg.content pkg.meta_data pkg.transaction pkg.error.error pkg.error.messages
        pkg.version h;
  serialize_object = λ pkg.
      parts_some pkg.content pkg.meta_data pkg.transaction pkg.error.error pkg.error.messages
        (str_eq pkg.version app_version);
  msgpack_back = λ j. refl;
  msgpack_some = λ j e. cc e;
  zstd_size = λ s c e. cc e;
  zstd_back = λ s c e. sym e;
}

short_message : length (frame (9 ∷ 1 ∷ 4 ∷ [])) < 10 ^ 9
unfolding frame
short_message = omega (
  arith,
  length-append {0} (encode_msg_length 3) (9 ∷ 1 ∷ 4 ∷ []),
  (stoi-encode_msg_length 3 (omega arith)).0,
)

decompress-compress_example :
    (m : List ℕ) × (read (frame (9 ∷ 1 ∷ 4 ∷ [])) ≡ Read.message m [])
    × (decompress bytes_wire m ≡ bare (4 ∷ []))
    × (compress bytes_wire false (bare (4 ∷ [])) ≡ some m)
unfolding compress frame bytes_wire serialize_bare read_bare bare parts empty_package
decompress-compress_example =
    decompress-compress bytes_wire bytes_wire-IsWire (bare (4 ∷ [])) (frame (9 ∷ 1 ∷ 4 ∷ [])) refl
      short_message

-- A callback that starts the timer.
abbrev starts_timer : ℕ → DataPackage (List ℕ) → Client → Client
starts_timer cb pkg c = create_timer_async c 5 10

abbrev waiting_client : Client
waiting_client = record new_client {
  read_queue = some [];
  analyze_nat_future = running;
  transaction_callbacks = (2, 7 ∷ []) ∷ [];
}

read_package-collect_ends_example :
    read_package bytes_wire starts_timer (collect_ends bytes_wire waiting_client (bare (4 ∷ [])))
    ≡ publish_transaction starts_timer
        (record waiting_client { read_queue = some []; analyze_nat_future = ready no_error })
        (bare (4 ∷ []))
unfolding compress frame bytes_wire serialize_bare read_bare bare parts empty_package
read_package-collect_ends_example =
    read_package-collect_ends bytes_wire bytes_wire-IsWire starts_timer waiting_client
      (bare (4 ∷ [])) (frame (9 ∷ 1 ∷ 4 ∷ [])) refl refl short_message

abbrev end_well : Ends
end_well = record { rw = no_error; analyze = no_error; traverse = no_error; http = no_error }

abbrev any_codec : {A : Type 0} → A → Codec (List ℕ) A
any_codec a = record {
  fresh = a;
  serialize = λ x. ([], []);
  deserialize = λ x j. (x, []);
  deserialize_text = λ x t. (x, []);
}

abbrev any_formats : Formats (List ℕ)
any_formats = record {
  wire = bytes_wire;
  text = record { blank = ""; to_json = λ s. []; from_json = λ j. none };
  number = record { blank = 0; to_json = λ n. n ∷ []; from_json = λ j. none };
  lobby =
      any_codec
        (record { owner = user bytes_json 1 "ada"; joined = []; result = blank_traversal_result });
  address = any_codec blank_address;
}

abbrev some_acts : List (Act (List ℕ))
some_acts =
    subscribes (Transaction.client_receive_nat_type ∷ []) 7
    ∷ connects end_well
    ∷ connection_made
    ∷ reads (9 ∷ 1 ∷ [])
    ∷ collects
    ∷ collect_done (bare (4 ∷ []))
    ∷ updates 100
    ∷ predicts
    ∷ prediction_done none
    ∷ connection_done no_error
    ∷ disconnects end_well
    ∷ []

act_all-IsServed_example : IsServed (act_all any_formats starts_timer new_client some_acts)
unfolding create_timer_async
act_all-IsServed_example = act_all-IsServed any_formats starts_timer (λ cb pkg c s. s) some_acts

-- A connection with a write under way and two messages in the queue.
abbrev busy : Connection
busy = record {
  write_queue = (1 ∷ []) ∷ (2 ∷ []) ∷ [];
  read_queue = [];
  in_flight = (0 ∷ []) ∷ [];
  reading = Reading.reads_length;
  stopped = false;
}

rounds-in_flight_example :
    ((rounds 2 busy).in_flight ≡ (0 ∷ []) ∷ (1 ∷ []) ∷ (2 ∷ []) ∷ [])
    × ((rounds 2 busy).write_queue ≡ [])
rounds-in_flight_example = rounds-in_flight 2 busy

-- Addresses as lists of numbers, which tell whether the port is known.
abbrev known_ip : ℕ → String
known_ip port = if port == 0 then "0.0.0.0" else "1.2.3.4"

abbrev read_address : List ℕ → Address × List String
read_address (port ∷ index ∷ rtt ∷ rest) =
    (record { ip_address = known_ip port; port = port; index = index; rtt_ms = rtt }, [])
read_address _ = (blank_address, "too short" ∷ [])

abbrev unmarked : List ℕ → List ℕ
unmarked [] = []
unmarked (b ∷ bs) = bs

abbrev list_formats : CollectFormats (List ℕ)
list_formats = record {
  json = bytes_json;
  from_msgpack = unmarked;
  address = record {
    fresh = blank_address;
    serialize = λ a. (a.port ∷ a.index ∷ a.rtt_ms ∷ [], []);
    deserialize = λ b j. read_address j;
    deserialize_text = λ b s. (b, []);
  };
  result = any_codec (record { stages = [] });
}

abbrev marked_bytes : List ℕ → List ℕ
marked_bytes bytes = 9 ∷ bytes

abbrev third : Socket
third = record {
  index = 3;
  port = 10003;
  max_port = 10003;
  socket = some 0;
  timer = none;
  stage_index = 0;
  is_last_socket = true;
  first = 0;
}

abbrev idle : Task ℕ
idle = initial (record { rem95 = none; now = 100 }) [] 0 2000

handle_receive-answer_example :
    (request reply : List ℕ) × (send_request list_formats idle third 105
      ≡ (idle, record { handle = some 0; to_port = 10003; document = request } ∷ []))
    × (echo list_formats ErrorCode.success (marked_bytes request) "1.2.3.4" 40000 ≡ some reply)
    × (handle_receive list_formats
          (record { rem95 = none; now = 150 })
          idle
          third
          ErrorCode.success
          ""
          (marked_bytes reply)
        ≡ receive_address
            (record { rem95 = none; now = 150 })
            idle
            third
            (record { ip_address = "1.2.3.4"; port = 40000; index = 3; rtt_ms = 105 }))
handle_receive-answer_example =
    handle_receive-answer list_formats marked_bytes idle idle third 105 "1.2.3.4" 40000
      (record { rem95 = none; now = 150 }) ""
      (record {
        no_errors = refl;
        read_back = λ b. refl;
        msgpack_back = refl;
        not_null = refl;
        not_empty = refl;
      })
      (record {
        no_errors = refl;
        read_back = λ b. refl;
        msgpack_back = refl;
        not_null = refl;
        not_empty = refl;
      })

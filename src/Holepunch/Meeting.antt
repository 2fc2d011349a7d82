-- ===== src/Holepunch/Meeting.antt =====
-- Two hosts that run AndroidSource/src/Components/UDPHolepunching.cpp and reach one another.
use nat_data_collector.Prelude.{
  ℕ, String, ◌≡◌, true, false, none, some, List, [], ◌∷◌, refl, get_elem?, is_empty, zero, suc, ap,
  ◌∙◌, ◌==◌, if-both, if-false,
}
use mathlib.Core.Option as Option
use nat_data_collector.Errors.{ErrorCode}
use nat_data_collector.Collect.Stages.{update}
use nat_data_collector.Json.{IsJson, IsConversion}
use nat_data_collector.Holepunch.{
  Task, Socket, Event, Endpoint, Arrival, Formats, send_id, identify, heard, step, remote_endpoint,
  handle_receive, tell, keep_alive, set_timer, send_request,
}

-- The documented behaviour of the libraries on the document that tells an index.
pub record IsFaithful {J : Type 0} (formats : Formats J) (to_msgpack : J → List ℕ) (index : ℕ)
    : Type 0 where
  pub not_null : formats.json.is_null (identify formats index) ≡ false
  pub msgpack_back :
      formats.from_msgpack (to_msgpack (identify formats index)) ≡ identify formats index
  pub not_empty : is_empty (to_msgpack (identify formats index)) ≡ false

abbrev pub arrival : List ℕ → Endpoint → ℕ → Arrival
arrival bytes sender port = record { bytes = bytes; other_endpoint = sender; local_port = port }

-- The task of a timer that has fired.
abbrev fired : Task → ℕ → Task
fired t i = record t { socket_list = update (set_timer none) i t.socket_list }

get_elem?-update {ℓ} :
    {A : Type ℓ} (f : A → A) (i : ℕ) (xs : List A) {x : A}
    → get_elem? xs i ≡ some x
    → get_elem? (update f i xs) i ≡ some (f x)
get_elem?-update f i [] e = cc e
get_elem?-update f zero (x ∷ xs) e = ap (Option.map f) e
get_elem?-update f (suc i) (x ∷ xs) e = get_elem?-update f i xs e

keep_alive-on : (t : Task) (i : ℕ) → (keep_alive t i).stopped ≡ t.stopped
keep_alive-on t i =
    if-both (λ u. u.stopped ≡ t.stopped) (t.config.keep_alive_rate_ms == 0) t _ refl refl

keep_alive-at :
    (t : Task) (i : ℕ) {sock : Socket}
    → get_elem? t.socket_list i ≡ some sock
    → (s : Socket) × (get_elem? (keep_alive t i).socket_list i ≡ some s)
keep_alive-at t i {sock} e =
    if-both (λ u. (s : Socket) × (get_elem? u.socket_list i ≡ some s))
      (t.config.keep_alive_rate_ms == 0) t _ (sock, e)
      (_, get_elem?-update (set_timer (some t.config.keep_alive_rate_ms)) i t.socket_list e)

module _ {J : Type 0} (formats : Formats J) (to_msgpack : J → List ℕ) (json : IsJson formats.json)
    (number : IsConversion formats.number) where
  handle_receive-tell :
      (t : Task) (i k : ℕ) (message : String) (sender : Endpoint) (port : ℕ) {sock : Socket}
      → get_elem? t.socket_list i ≡ some sock
      → IsFaithful formats to_msgpack k
      → handle_receive formats t i ErrorCode.success message
          (arrival (to_msgpack (identify formats k)) sender port)
        ≡ some (tell formats t i (arrival (to_msgpack (identify formats k)) sender port) k)
  unfolding handle_receive
  handle_receive-tell t i k message sender port {sock} at_i f =
      let null = formats.json.null in
      let value = formats.number.to_json k in
      rw
        (
          f.not_empty,
          at_i,
          f.msgpack_back,
          f.not_null,
          json.contains_put null send_id send_id value json.open_null,
          json.at_put null send_id send_id value json.open_null,
          number.from_to k,
        )
        refl

  reply_to :
      (t : Task) (i k : ℕ) (message : String) (sender : Endpoint) (port : ℕ) {sock : Socket}
      → t.stopped ≡ false
      → get_elem? t.socket_list i ≡ some sock
      → IsFaithful formats to_msgpack k
      → step formats t (
          Event.received i ErrorCode.success message
            (arrival (to_msgpack (identify formats k)) sender port))
        ≡ some (tell formats t i (arrival (to_msgpack (identify formats k)) sender port) k)
  unfolding step
  reply_to t i k message sender port on at_i f =
      if-false t.stopped _ _ on ∙ handle_receive-tell t i k message sender port at_i f

  request_lem :
      (t : Task) (i due : ℕ) (message : String) {sock : Socket}
      → t.stopped ≡ false
      → get_elem? t.socket_list i ≡ some sock
      → sock.timer ≡ some due
      → step formats t (Event.request_due i ErrorCode.success message)
        ≡ some (
          keep_alive (fired t i) i,
          record {
            socket = i;
            to_endpoint = remote_endpoint t.config;
            document = identify formats i;
          }
              ∷ [],
        )
  unfolding step send_request
  request_lem t i due message {sock} on at_i waits =
      if-false t.stopped _ _ on
      ∙ rw (at_i, waits, get_elem?-update (set_timer none) i t.socket_list at_i) refl

  -- With libraries that behave on documents and on the two indices as documented: a socket whose
  -- timer is due sends one datagram to the predicted address, with its own index. A task of the
  -- other host that gets this datagram keeps a successful result with the index of its own socket
  -- and that of the sender, and answers the sender with its own index. When that answer comes back
  -- to the socket, the first host keeps a successful result with the two indices swapped.
  pub step-meeting :
      (a b : Task) (i j due : ℕ) (message : String) (seen_a seen_b : Endpoint) (port_a port_b : ℕ)
      {sock_a sock_b : Socket}
      → a.stopped ≡ false
      → b.stopped ≡ false
      → get_elem? a.socket_list i ≡ some sock_a
      → sock_a.timer ≡ some due
      → get_elem? b.socket_list j ≡ some sock_b
      → IsFaithful formats to_msgpack i
      → IsFaithful formats to_msgpack j
      → (request : J) × (reply : J) × (a' : Task) × (a'' : Task) × (b' : Task) × (step formats a
            (Event.request_due i ErrorCode.success message)
          ≡ some (
            a',
            record { socket = i; to_endpoint = remote_endpoint a.config; document = request } ∷ [],
          ))
        × (step formats b (
              Event.received j ErrorCode.success message
                (arrival (to_msgpack request) seen_a port_b))
            ≡ some (b', record { socket = j; to_endpoint = seen_a; document = reply } ∷ []))
        × (step formats a' (
              Event.received i ErrorCode.success message (arrival (to_msgpack reply) seen_b port_a))
            ≡ some (a'', record { socket = i; to_endpoint = seen_b; document = request } ∷ []))
        × (b'.result ≡ record {
          success = true;
          local_port = port_b;
          target_port = seen_a.port;
          target_address = seen_a.address;
          rcvd_index = j;
          send_index = i;
        })
        × (a''.result ≡ record {
          success = true;
          local_port = port_a;
          target_port = seen_b.port;
          target_address = seen_b.address;
          rcvd_index = i;
          send_index = j;
        })
  step-meeting a b i j due message seen_a seen_b port_a port_b on_a on_b at_i waits at_j f g =
      let a' = keep_alive (fired a i) i in
      let request = identify formats i in
      let reply = identify formats j in
      (
        request,
        reply,
        a',
        record a' { result = heard i (arrival (to_msgpack reply) seen_b port_a) j },
        record b { result = heard j (arrival (to_msgpack request) seen_a port_b) i },
        request_lem a i due message on_a at_i waits,
        reply_to b j i message seen_a port_b on_b at_j f,
        reply_to a' i j message seen_b port_a (keep_alive-on (fired a i) i ∙ on_a)
            (keep_alive-at (fired a i) i (get_elem?-update (set_timer none) i a.socket_list at_i)).1
            g,
        refl,
        refl,
      )

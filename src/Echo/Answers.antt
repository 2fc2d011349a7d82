-- ===== src/Echo/Answers.antt =====
-- A request of AndroidSource/src/Components/UDPCollectTask.cpp and the answer of
-- ServerSource/src/Server/AddressRequest.cpp.
use nat_data_collector.Prelude.{ℕ, String, some, List, [], ◌∷◌, ◌≡◌, refl, false, is_empty}
use nat_data_collector.Errors.{ErrorCode}
use nat_data_collector.Data.{Address, blank_address}
use nat_data_collector.Collect.{Device, Socket}
use nat_data_collector.Collect.Stages.{Task}
use nat_data_collector.Collect.Steps.{time_stamp_only_ms, receive_address}
use nat_data_collector.Collect.Run.{
  Formats, send_request, handle_receive, receive_bytes, send_serialized,
}
use nat_data_collector.Echo.{handle_receive as echo, answered}

-- The documented behaviour of the libraries on an address: it is written without errors, what is
-- written is read back, and neither its document nor the bytes of that are empty.
pub record IsFaithful {J : Type 0} (formats : Formats J) (to_msgpack : J → List ℕ) (a : Address)
    : Type 0 where
  pub no_errors : (formats.address.serialize a).1 ≡ []
  pub read_back :
      (b : Address) → formats.address.deserialize b (formats.address.serialize a).0 ≡ (a, [])
  pub msgpack_back :
      formats.from_msgpack (to_msgpack (formats.address.serialize a).0)
      ≡ (formats.address.serialize a).0
  pub not_null : formats.json.is_null (formats.address.serialize a).0 ≡ false
  pub not_empty : is_empty (to_msgpack (formats.address.serialize a).0) ≡ false

-- What the service has seen, for an address that it was sent.
abbrev pub answer : String → ℕ → Address → Address
answer ip_address port a = record {
  ip_address = ip_address;
  port = port;
  index = a.index;
  rtt_ms = a.rtt_ms;
}

-- The address with which a request is sent.
abbrev pub sent_address : Socket → ℕ → Address
sent_address sock now = record blank_address { index = sock.index; rtt_ms = time_stamp_only_ms now }

answered-document : {J : Type 0} (r : J × List String) → r.1 ≡ [] → answered r ≡ some r.0
answered-document (document, []) e = refl
answered-document (document, m ∷ ms) e = cc e

module _ {J : Type 0} (formats : Formats J) (to_msgpack : J → List ℕ) where
  receive-document :
      {S : Type 0} (device : Device) (u : Task S) (sock : Socket) (bytes : List ℕ) (a : Address)
      → IsFaithful formats to_msgpack a
      → is_empty bytes ≡ false
      → formats.from_msgpack bytes ≡ (formats.address.serialize a).0
      → receive_bytes formats device u sock bytes ≡ receive_address device u sock a
  receive-document device u sock [] a f e p = cc e
  receive-document device u sock (b ∷ bs) a f e p =
      rw (p, f.not_null, f.read_back formats.address.fresh) refl

  send_serialized-document :
      {S : Type 0} (t : Task S) (sock : Socket) (r : J × List String)
      → r.1 ≡ []
      → send_serialized formats t sock r
        ≡ (t, record { handle = sock.socket; to_port = sock.port; document = r.0 } ∷ [])
  send_serialized-document t sock (document, []) e = refl
  send_serialized-document t sock (document, m ∷ ms) e = cc e

  echo-document :
      (ip_address : String) (port : ℕ) (a : Address)
      → IsFaithful formats to_msgpack a
      → IsFaithful formats to_msgpack (answer ip_address port a)
      → echo formats ErrorCode.success (to_msgpack (formats.address.serialize a).0) ip_address port
        ≡ some (formats.address.serialize (answer ip_address port a)).0
  unfolding echo
  echo-document ip_address port a f g =
      rw (f.msgpack_back, f.not_null, f.read_back formats.address.fresh)
        (answered-document (formats.address.serialize (answer ip_address port a)) g.no_errors)

  -- With libraries that behave on the two addresses as `IsFaithful` says: a request is one datagram
  -- to the port of its socket, the service answers it, and the client takes from the answer,
  -- whenever it comes, the address and port that the service has seen, with the index of the
  -- request and the time stamp of its sending.
  pub handle_receive-answer :
      {S : Type 0} (t u : Task S) (sock : Socket) (now : ℕ) (ip_address : String) (port : ℕ)
      (device : Device) (message : String)
      → IsFaithful formats to_msgpack (sent_address sock now)
      → IsFaithful formats to_msgpack (answer ip_address port (sent_address sock now))
      → (request reply : J) × (send_request formats t sock now
          ≡ (t, record { handle = sock.socket; to_port = sock.port; document = request } ∷ []))
        × (echo formats ErrorCode.success (to_msgpack request) ip_address port ≡ some reply)
        × (handle_receive formats device u sock ErrorCode.success message (to_msgpack reply)
            ≡ receive_address device u sock (record {
              ip_address = ip_address;
              port = port;
              index = sock.index;
              rtt_ms = time_stamp_only_ms now;
            }))
  unfolding send_request handle_receive
  handle_receive-answer t u sock now ip_address port device message f g =
      let sent = sent_address sock now in
      let seen = answer ip_address port sent in
      (
        (formats.address.serialize sent).0,
        (formats.address.serialize seen).0,
        send_serialized-document t sock (formats.address.serialize sent) f.no_errors,
        echo-document ip_address port sent f g,
        receive-document device u sock (to_msgpack (formats.address.serialize seen).0) seen g
            g.not_empty g.msgpack_back,
      )

-- ===== src/Collect/Safe/Handlers.antt =====
-- What requests and replies make of a well-formed task of AndroidSource/src/Components/UDPCollectTask.cpp.
use nat_data_collector.Prelude.{
  at-Gives, Gives, Gives-bind, if-both, ℕ, ◌<◌, Bool, true, false, some, List, String, [], ◌∷◌,
  length, ◌>>=◌, Option-cases, inl, inr,
}
use nat_data_collector.Types.{ErrorType}
use nat_data_collector.Errors.{ErrorCode, from_asio, failed}
use nat_data_collector.Data.{Address}
use nat_data_collector.Collect.{Stage, Socket, Device}
use nat_data_collector.Collect.Stages.{Task, update}
use nat_data_collector.Collect.Ports.{create_socket}
use nat_data_collector.Collect.Steps.{cancel_timer, stop_with}
use nat_data_collector.Collect.Run.{
  Answers, Datagram, Formats, send_request, send_serialized, to_service, with_socket, on_request,
  deserialized, receive_bytes, handle_receive, request_at,
}
use nat_data_collector.Collect.Safe.{length-update, All-update, WellFormed}
use nat_data_collector.Collect.Safe.Events.{receive_address-WellFormed}
use nat_data_collector.Collect.Safe.Sockets.{FreePort, create_socket-WellFormed}

abbrev pub Left : {J : Type 0} {S : Type 0} → Task S × List (Datagram J) → Type 0
Left r = WellFormed r.0

module _ {J : Type 0} (formats : Formats J) {S : Type 0} where
  send_serialized-WellFormed :
      (t : Task S) (sock : Socket) (r : J × List String)
      → WellFormed t
      → Left (send_serialized formats t sock r)
  send_serialized-WellFormed t sock (document, []) w = w
  send_serialized-WellFormed t sock (document, m ∷ ms) w = w

  to_service-WellFormed :
      (answers : Answers) (t : Task S) (sock : Socket)
      → WellFormed t
      → Left (to_service formats answers t sock)
  unfolding send_request
  to_service-WellFormed answers t sock w =
      if-both Left answers.shutdown
        (
          stop_with (record t { error = record { error = ErrorType.error; messages = [] } })
              ("Abort Collecting Ports, shutdown requested from main thread" ∷ []),
          [],
        )
        _ w
        (if-both Left (failed (from_asio answers.address answers.message "Make Adress"))
          (record t { error = from_asio answers.address answers.message "Make Adress" }, [])
          (send_request formats t sock answers.time) w (send_serialized-WellFormed t sock _ w))

  with_socket-WellFormed :
      (answers : Answers) (i : ℕ) (r : Bool × Task S)
      → WellFormed r.1
      → i < length r.1.socket_list
      → Gives Left (with_socket formats answers i r)
  with_socket-WellFormed answers i (false, t) w h = w
  with_socket-WellFormed answers i (true, t) w h =
      at-Gives Left t.socket_list i (λ o. o >>= λ sock. some (to_service formats answers t sock)) h
        (λ sock. to_service-WellFormed answers t sock w)

  deserialized-WellFormed :
      (device : Device) (t : Task S) (sock : Socket) (r : Address × List String)
      → sock.stage_index < length t.stages
      → WellFormed t
      → Gives WellFormed (deserialized formats device t sock r)
  deserialized-WellFormed device t sock (a, []) h w = receive_address-WellFormed device t sock a h w
  deserialized-WellFormed device t sock (a, m ∷ ms) h w = w

  receive_bytes-WellFormed :
      (device : Device) (t : Task S) (sock : Socket) (bytes : List ℕ)
      → sock.stage_index < length t.stages
      → WellFormed t
      → Gives WellFormed (receive_bytes formats device t sock bytes)
  receive_bytes-WellFormed device t sock [] h w = w
  receive_bytes-WellFormed device t sock (b ∷ bs) h w =
      let document = formats.from_msgpack (b ∷ bs) in
      if-both (Gives WellFormed) (formats.json.is_null document) (some t) _ w (
        deserialized-WellFormed device t sock
          (formats.address.deserialize formats.address.fresh document) h w)

  on_request-WellFormed :
      (answers : Answers) (t : Task S) (i : ℕ) (sock : Socket) (stage : Stage S)
      → FreePort answers.bind
      → i < length t.socket_list
      → WellFormed t
      → Gives Left (on_request formats answers t i sock stage)
  unfolding on_request
  on_request-WellFormed answers t i sock stage f h w =
      Gives-bind Left
        (create_socket 64511 answers.opened answers.bind t sock.first i stage.settings.local_port)
        (with_socket formats answers i)
        (create_socket-WellFormed answers.opened answers.bind t sock.first i
          stage.settings.local_port f w)
        (λ r same. with_socket-WellFormed answers i r same.0 (rw same.1 h))

  pub handle_receive-WellFormed :
      (device : Device) (t : Task S) (sock : Socket) (ec : ErrorCode) (message : String)
      (bytes : List ℕ)
      → sock.stage_index < length t.stages
      → WellFormed t
      → Gives WellFormed (handle_receive formats device t sock ec message bytes)
  unfolding handle_receive
  handle_receive-WellFormed device t sock ErrorCode.success message bytes h w =
      receive_bytes-WellFormed device t sock bytes h w
  handle_receive-WellFormed device t sock ErrorCode.message_size message bytes h w =
      receive_bytes-WellFormed device t sock bytes h w
  handle_receive-WellFormed device t sock ErrorCode.operation_aborted message bytes h w = w
  handle_receive-WellFormed device t sock ErrorCode.eof message bytes h w = w
  handle_receive-WellFormed device t sock ErrorCode.address_in_use message bytes h w = w
  handle_receive-WellFormed device t sock ErrorCode.not_connected message bytes h w = w
  handle_receive-WellFormed device t sock ErrorCode.other message bytes h w = w

  pub request_at-WellFormed :
      (answers : Answers) (t : Task S) (i : ℕ) (sock : Socket)
      → FreePort answers.bind
      → i < length t.socket_list
      → sock.stage_index < length t.stages
      → WellFormed t
      → Gives Left (request_at formats answers t i sock)
  unfolding on_request
  request_at-WellFormed answers t i sock f b h w =
      let fired = record t { socket_list = update cancel_timer i t.socket_list } in
      let fits : WellFormed fired = record {
        results = w.results;
        sound = w.sound;
        placed =
            All-update (λ s. s.stage_index < length t.stages) cancel_timer i t.socket_list
              (λ s p. p) w.placed;
        port = w.port;
      } in
      elim (Option-cases sock.timer) [
        | inl e ↦ rw e w
        | inr (due, e) ↦ rw e (
            at-Gives Left t.stages sock.stage_index
              (λ o. o >>= λ stage. on_request formats answers fired i sock stage) h
              (λ stage.
                on_request-WellFormed answers fired i sock stage f
                  (rw (length-update cancel_timer i t.socket_list) b) fits))
      ]

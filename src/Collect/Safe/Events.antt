-- ===== src/Collect/Safe/Events.antt =====
-- What the handlers of AndroidSource/src/Components/UDPCollectTask.cpp make of a well-formed task.
use nat_data_collector.Prelude.{
  at-Gives, Gives, if-both, ℕ, ◌+◌, ◌<◌, ◌≡◌, ◌∙◌, refl, String, Bool, true, false, ◌&&◌, ◌==◌,
  some, [], ◌∷◌, ◌++◌, length, get_elem?, leb, Option-cases, inl, inr,
}
use nat_data_collector.Errors.{ErrorCode}
use nat_data_collector.Data.{Address}
use nat_data_collector.Collect.{Settings, Stage, Socket, Device}
use nat_data_collector.Collect.Stages.{Task, prepare_stage, close_socket}
use nat_data_collector.Collect.Steps.{
  start_receive, start_receive_at, min_duration, receive_address, close_early, add_address,
  add_deadline, fails, received_all, push_address, meets, check_stage, check, round_trip,
}
use nat_data_collector.Collect.Safe.{length-update, WellFormed, prepare_stage-WellFormed}

module _ {S : Type 0} where
  add_deadline-WellFormed :
      (t : Task S) (i : ℕ) (sock : Socket) (s : Settings)
      → WellFormed t
      → WellFormed (add_deadline t i sock s)
  add_deadline-WellFormed t i sock s w =
      if-both WellFormed (s.close_socket_early && (s.echo_server_start_port == sock.port))
        (record t {
          deadline_vector =
              t.deadline_vector
              ++ record { place = i; duration = min_duration s sock; waits = true } ∷ [];
        })
        t w w

  pub start_receive-WellFormed :
      (t : Task S) (i : ℕ) (sock : Socket) (ec : ErrorCode) (message : String)
      → sock.stage_index < length t.stages
      → WellFormed t
      → Gives WellFormed (start_receive t i sock ec message)
  unfolding start_receive
  start_receive-WellFormed t i sock ec message h w = if-both (Gives WellFormed) (fails ec) _ _ w (
      at-Gives WellFormed t.stages sock.stage_index (start_receive_at t i sock) h
        (λ stage. add_deadline-WellFormed t i sock stage.settings w))

  push_address-WellFormed :
      (t : Task S) (i : ℕ) (a : Address) → WellFormed t → WellFormed (push_address t i a)
  push_address-WellFormed t i a w = record {
    results = length-update (add_address a) i t.result.stages ∙ w.results;
    sound = w.sound;
    placed = w.placed;
    port = w.port;
  }

  received_all-WellFormed :
      (device : Device) (t : Task S) (i : ℕ) (stage : Stage S)
      → i < length t.stages
      → WellFormed t
      → Gives WellFormed (received_all device t i stage (get_elem? t.result.stages i))
  received_all-WellFormed device t i stage h w =
      at-Gives WellFormed t.result.stages i (received_all device t i stage) (rw w.results h) (λ c.
        if-both (Gives WellFormed) (leb stage.settings.sample_size (length c.addresses)) _ (some t)
          (prepare_stage-WellFormed device t (i + 1) w) w)

  meets-WellFormed :
      (t : Task S) (stage : Stage S) (a : Address) (i : ℕ)
      → WellFormed t
      → WellFormed (meets t stage a i).1 × (length (meets t stage a i).1.stages ≡ length t.stages)
  meets-WellFormed t stage a i w = elim (Option-cases stage.cond) [
    | inl e ↦ rw e (w, refl)
    | inr (cond, e) ↦ rw e (w, refl)
  ]

  check_stage-WellFormed :
      (device : Device) (i : ℕ) (stage : Stage S) (b : Bool) (t : Task S)
      → i < length t.stages
      → WellFormed t
      → Gives WellFormed (check_stage device i stage (b, t))
  check_stage-WellFormed device i stage true t h w = prepare_stage-WellFormed device t (i + 1) w
  check_stage-WellFormed device i stage false t h w = received_all-WellFormed device t i stage h w

  pub receive_address-WellFormed :
      (device : Device) (t : Task S) (sock : Socket) (a : Address)
      → sock.stage_index < length t.stages
      → WellFormed t
      → Gives WellFormed (receive_address device t sock a)
  unfolding receive_address
  receive_address-WellFormed device t sock read h w =
      let i = sock.stage_index in
      let a = record read { rtt_ms = round_trip device.now read.rtt_ms } in
      let pushed = push_address-WellFormed t i a w in
      at-Gives WellFormed t.stages i (check device (push_address t i a) a i) h (λ stage.
        let m = meets-WellFormed (push_address t i a) stage a i pushed in
        check_stage-WellFormed device i stage (meets (push_address t i a) stage a i).0
          (meets (push_address t i a) stage a i).1 (rw m.1 h) m.0)

  pub close_early-WellFormed :
      (device : Device) (t : Task S) (sock : Socket)
      → WellFormed t
      → Gives WellFormed (close_early device t sock)
  unfolding close_early
  close_early-WellFormed device t sock w =
      let closed = record t { handles = close_socket t.handles sock.socket } in
      if-both (Gives WellFormed) sock.is_last_socket
        (prepare_stage device closed (sock.stage_index + 1)) (some closed)
        (prepare_stage-WellFormed device closed (sock.stage_index + 1) w) w

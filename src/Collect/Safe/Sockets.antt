-- ===== src/Collect/Safe/Sockets.antt =====
-- What `CreateSocket` of AndroidSource/src/Components/UDPCollectTask.cpp makes of a well-formed task.
use native.Mathlib.Nat.{mod-lt}
use nat_data_collector.Prelude.{
  Gives, if-both, ℕ, ◌+◌, ◌%◌, ◌<◌, ◌≤◌, ◌≡◌, refl, Bool, true, false, not, ◌==◌, Option, none,
  some, length, get_elem?, arith, ◌>>=◌, Option-cases, inl, inr,
}
use nat_data_collector.Errors.{ErrorCode}
use nat_data_collector.Collect.{Socket}
use nat_data_collector.Collect.Stages.{Task, update}
use nat_data_collector.Collect.Ports.{
  create_socket, search, in_use, is_success, bind_found, bind_local, bind_socket, set_socket,
  device_works, create_at, exhausted, add_handle,
}
use nat_data_collector.Collect.Search.{search_lem}
use nat_data_collector.Collect.Safe.{length-update, All-update, WellFormed}

-- A port from 1025 on that is not in use.
pub record FreePort (bind : ℕ → ErrorCode) : Type 0 where
  pub free : ℕ
  pub low : 1025 ≤ free
  pub high : free < 65536
  pub not_used : in_use (bind free) ≡ false

module _ {S : Type 0} where
  -- Well-formed, with as many sockets as before.
  abbrev pub Same : Task S → Bool × Task S → Type 0
  Same t r = WellFormed r.1 × (length r.1.socket_list ≡ length t.socket_list)

  set_socket-WellFormed :
      (t : Task S) (h : Option ℕ) (i : ℕ)
      → WellFormed t
      → WellFormed (record t { socket_list = update (set_socket h) i t.socket_list })
  set_socket-WellFormed t h i w = record {
    results = w.results;
    sound = w.sound;
    placed =
        All-update (λ sock. sock.stage_index < length t.stages) (set_socket h) i t.socket_list
          (λ sock p. p) w.placed;
    port = w.port;
  }

  bind_local-WellFormed :
      (t : Task S) (i port : ℕ) (ec : ErrorCode) → WellFormed t → Same t (bind_local t i port ec)
  bind_local-WellFormed t i port ec w =
      if-both (Same t) (is_success ec) (true, add_handle t i port) (false, exhausted t)
        (set_socket-WellFormed t (some (length t.handles)) i w, length-update _ i t.socket_list)
        (w, refl)

  bind_found-WellFormed :
      (t : Task S) (i port : ℕ) (ec : ErrorCode)
      → port < 65536
      → WellFormed t
      → Same t (bind_found t i port ec)
  bind_found-WellFormed t i port ec b w =
      let added = set_socket-WellFormed t (some (length t.handles)) i w in
      if-both (Same t) (is_success ec)
        (true, record (add_handle t i port) { current_port = (port + 1) % 65536 })
        (false, record (exhausted t) { current_port = port })
        (
          record {
            results = added.results;
            sound = added.sound;
            placed = added.placed;
            port = mod-lt (port + 1) (omega arith);
          },
          length-update _ i t.socket_list,
        )
        (record { results = w.results; sound = w.sound; placed = w.placed; port = b }, refl)

  bind_socket-WellFormed :
      (bind : ℕ → ErrorCode) (t : Task S) (i local_port : ℕ)
      → FreePort bind
      → WellFormed t
      → Gives (Same t) (bind_socket 64511 bind t i local_port)
  bind_socket-WellFormed bind t i local_port f w =
      let s = search_lem bind t.current_port f.free w.port f.low f.high f.not_used in
      if-both (Gives (Same t)) (local_port == 0)
        (search 64511 bind t.current_port >>= λ port. some (bind_found t i port (bind port)))
        (some (bind_local t i local_port (bind local_port)))
        (rw s.1 (bind_found-WellFormed t i s.0 (bind s.0) s.3 w))
        (bind_local-WellFormed t i local_port (bind local_port) w)

  create_at-WellFormed :
      (opened : ErrorCode) (bind : ℕ → ErrorCode) (t : Task S) (i j local_port : ℕ)
      (found : Option Socket)
      → FreePort bind
      → WellFormed t
      → Gives (Same t) (create_at 64511 opened bind t i j local_port found)
  create_at-WellFormed opened bind t i j local_port none f w = (w, refl)
  create_at-WellFormed opened bind t i j local_port (some s) f w = elim (Option-cases s.socket) [
    | inl e ↦ rw e (
        if-both (Gives (Same t)) (not (i == j)) (some (false, t)) _ (w, refl)
          (if-both (Gives (Same t)) (not (is_success opened)) (some (false, exhausted t))
            (bind_socket 64511 bind t i local_port) (w, refl)
            (bind_socket-WellFormed bind t i local_port f w)))
    | inr (h, e) ↦
        rw e (
          set_socket-WellFormed t (some h) j w,
          length-update (set_socket (some h)) j t.socket_list,
        )
  ]

  pub create_socket-WellFormed :
      (opened : ErrorCode) (bind : ℕ → ErrorCode) (t : Task S) (i j local_port : ℕ)
      → FreePort bind
      → WellFormed t
      → Gives (Same t) (create_socket 64511 opened bind t i j local_port)
  unfolding create_socket
  create_socket-WellFormed opened bind t i j local_port f w =
      if-both (Gives (Same t)) (not (device_works t.system_error_state)) (some (false, t)) _
        (w, refl)
        (create_at-WellFormed opened bind t i j local_port (get_elem? t.socket_list i) f w)

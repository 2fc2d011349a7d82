-- ===== src/Holepunch/Safety.antt =====
-- What a run of AndroidSource/src/Components/UDPHolepunching.cpp may report.
use nat_data_collector.Prelude.{
  ℕ, zero, suc, ◌≤◌, ◌<◌, ◌≡◌, refl, String, Bool, not, ◌&&◌, true, false, Option, none, some, List,
  [], ◌∷◌, length, get_elem?, is_empty, All, Gives, Gives-bind, Gives-map, if-both, Bool-cases,
  ◌>>=◌, ◌⊎◌, inl, inr, arith, if◌then◌else◌, ◌==◌, ◌∙◌,
}
use nat_data_collector.Types.{Transaction}
use nat_data_collector.Errors.{Error, ErrorCode, failed, from_asio}
use nat_data_collector.Protocol.{DataPackage, create_error, create_data}
use nat_data_collector.Collect.{clamp_if_not_enough_files}
use nat_data_collector.Collect.Stages.{update}
use nat_data_collector.Collect.Steps.{fails}
use nat_data_collector.Collect.Safe.{length-update}
use nat_data_collector.Holepunch.{
  Config, Result, blank_result, Socket, Task, Opening, Arrival, Datagram, Event, Formats, send_id,
  prepare, new_task, set_timer, keep_alive, send_request, start_receive, heard, handle_receive,
  receive_at, receive_document, tell, timer_at, due_at, request_at, handle, step, run_events,
  finish, run, start_holepunching,
}

lt_of_get_elem? {ℓ} :
    {A : Type ℓ} (xs : List A) (i : ℕ) {x : A} → get_elem? xs i ≡ some x → i < length xs
lt_of_get_elem? [] i e = cc e
lt_of_get_elem? (x ∷ xs) zero e = omega arith
lt_of_get_elem? (x ∷ xs) (suc i) e = omega (arith, lt_of_get_elem? xs i e)

length-prepare :
    (config : Config) (answers : ℕ → Opening) (index n : ℕ)
    → length (prepare config answers index n).0 ≤ n
unfolding prepare
length-prepare config answers index zero = omega arith
length-prepare config answers index (suc n) =
    ground (arith, length-prepare config answers (suc index) n)

module _ {J : Type 0} (formats : Formats J) where
  -- The number that the document of the bytes holds.
  abbrev pub told_index : List ℕ → Option ℕ
  told_index bytes = formats.number.from_json (formats.json.at (formats.from_msgpack bytes) send_id)

  -- The completion brings a document with an index: it succeeded, has bytes, and the document has
  -- the key.
  abbrev pub is_read : ErrorCode → Bool
  is_read ErrorCode.success = true
  is_read ErrorCode.message_size = true
  is_read _ = false

  abbrev pub has_index : ErrorCode → List ℕ → Bool
  has_index ec bytes =
      is_read ec
      && not (is_empty bytes)
      && not (formats.json.is_null (formats.from_msgpack bytes))
      && formats.json.contains (formats.from_msgpack bytes) send_id

  -- Where a datagram holds the key, its value is a number.
  abbrev pub IsReadable : Event → Type 0
  IsReadable (Event.received i ec message a) =
      has_index ec a.bytes ≡ true → Gives (λ _. Unit {0}) (told_index a.bytes)
  IsReadable _ = Unit

  -- The event is the arrival, at one of `size` sockets, of a datagram that tells an index, and the
  -- result is made of it.
  abbrev pub Receipt : ℕ → Event → Result → Type 0
  Receipt size (Event.received i ec message a) r =
      (fails ec ≡ false)
      × (i < size)
      × (is_empty a.bytes ≡ false)
      × (formats.json.contains (formats.from_msgpack a.bytes) send_id ≡ true)
      × ((k : ℕ) × (told_index a.bytes ≡ some k) × (r ≡ heard i a k))
  Receipt size _ r = ⊥

  abbrev pub Heard : ℕ → List Event → Result → Type 0
  Heard size [] r = ⊥
  Heard size (e ∷ es) r = Receipt size e r ⊎ Heard size es r

  abbrev Told : ℕ → Task → Event → Task × List (Datagram J) → Type 0
  Told size t e r =
      (length r.0.socket_list ≤ size) × ((r.0.result ≡ t.result) ⊎ Receipt size e r.0.result)

  ignore-Told :
      (size : ℕ) (t : Task) (e : Event) (ds : List (Datagram J))
      → length t.socket_list ≤ size
      → Told size t e (t, ds)
  ignore-Told size t e ds fits = (fits, inl refl)

  tell-Told :
      (size : ℕ) (t : Task) (i : ℕ) (ec : ErrorCode) (message : String) (a : Arrival) (o : Option ℕ)
      → length t.socket_list ≤ size
      → i < size
      → fails ec ≡ false
      → is_empty a.bytes ≡ false
      → formats.json.contains (formats.from_msgpack a.bytes) send_id ≡ true
      → told_index a.bytes ≡ o
      → Gives (λ _. Unit) o
      → Gives
          (Told size t (Event.received i ec message a))
          (o >>= λ recvd_index. some (tell formats t i a recvd_index))
  tell-Told size t i ec message a none fits lt ok full holds e g = absurd g
  tell-Told size t i ec message a (some k) fits lt ok full holds e g =
      (fits, inr (ok, lt, full, holds, (k, e, refl)))

  receive_document-Told :
      (size : ℕ) (t : Task) (i : ℕ) (ec : ErrorCode) (message : String) (a : Arrival)
      → length t.socket_list ≤ size
      → i < size
      → fails ec ≡ false
      → is_read ec ≡ true
      → is_empty a.bytes ≡ false
      → (has_index ec a.bytes ≡ true → Gives (λ _. Unit {0}) (told_index a.bytes))
      → Gives
          (Told size t (Event.received i ec message a))
          (receive_document formats t i a (formats.from_msgpack a.bytes))
  receive_document-Told size t i ec message a fits lt ok read full readable =
      let e = Event.received i ec message a in
      let document = formats.from_msgpack a.bytes in
      elim (Bool-cases (formats.json.is_null document)) [
        | inl null ↦ rw null (ignore-Told size t e [] fits)
        | inr there ↦ elim (Bool-cases (formats.json.contains document send_id)) [
          | inl holds ↦
              rw (there, holds)
                (tell-Told size t i ec message a (told_index a.bytes) fits lt ok full holds refl
                  (readable (rw (read, full, there, holds) refl)))
          | inr lacks ↦ rw (there, lacks) (ignore-Told size t e [] fits)
        ]
      ]

  receive_at-Told :
      (size : ℕ) (t : Task) (i : ℕ) (ec : ErrorCode) (message : String) (a : Arrival)
      (o : Option Socket)
      → length t.socket_list ≤ size
      → get_elem? t.socket_list i ≡ o
      → fails ec ≡ false
      → is_read ec ≡ true
      → is_empty a.bytes ≡ false
      → (has_index ec a.bytes ≡ true → Gives (λ _. Unit {0}) (told_index a.bytes))
      → Gives (Told size t (Event.received i ec message a)) (receive_at formats t i a o)
  receive_at-Told size t i ec message a none fits e ok read full readable = (fits, inl refl)
  receive_at-Told size t i ec message a (some sock) fits e ok read full readable =
      receive_document-Told size t i ec message a fits
        (omega (arith, lt_of_get_elem? t.socket_list i e)) ok read full readable

  bytes-Told :
      (size : ℕ) (t : Task) (i : ℕ) (ec : ErrorCode) (message : String) (a : Arrival)
      → length t.socket_list ≤ size
      → fails ec ≡ false
      → is_read ec ≡ true
      → (has_index ec a.bytes ≡ true → Gives (λ _. Unit {0}) (told_index a.bytes))
      → Gives (Told size t (Event.received i ec message a)) (
          if is_empty a.bytes
          then some (t, [])
          else receive_at formats t i a (get_elem? t.socket_list i))
  bytes-Told size t i ec message a fits ok read readable = elim (Bool-cases (is_empty a.bytes)) [
    | inl empty ↦ rw empty (ignore-Told size t (Event.received i ec message a) [] fits)
    | inr full ↦ rw full (
        receive_at-Told size t i ec message a (get_elem? t.socket_list i) fits refl ok read full
          readable)
  ]

  received-Told :
      (size : ℕ) (t : Task) (i : ℕ) (ec : ErrorCode) (message : String) (a : Arrival)
      → length t.socket_list ≤ size
      → (has_index ec a.bytes ≡ true → Gives (λ _. Unit {0}) (told_index a.bytes))
      → Gives
          (Told size t (Event.received i ec message a))
          (handle_receive formats t i ec message a)
  unfolding handle_receive
  received-Told size t i ErrorCode.operation_aborted message a fits readable = (fits, inl refl)
  received-Told size t i ErrorCode.success message a fits readable =
      bytes-Told size t i ErrorCode.success message a fits refl refl readable
  received-Told size t i ErrorCode.message_size message a fits readable =
      bytes-Told size t i ErrorCode.message_size message a fits refl refl readable
  received-Told size t i ec message a fits readable = (fits, inl refl)

  -- The handler of a socket's timer changes timers, and may stop the task.
  Same : ℕ → Task → Task → Type 0
  Same size t u = (length u.socket_list ≤ size) × (u.result ≡ t.result)

  keep_alive-Same :
      (size : ℕ) (t : Task) (i : ℕ) → length t.socket_list ≤ size → Same size t (keep_alive t i)
  unfolding Same
  keep_alive-Same size t i fits =
      let due = some t.config.keep_alive_rate_ms in
      if-both (Same size t) (t.config.keep_alive_rate_ms == 0) t _ (fits, refl)
        (omega (arith, length-update (set_timer due) i t.socket_list), refl)

  request_at-Same :
      (size : ℕ) (t : Task) (i : ℕ) (o : Option Socket)
      → length t.socket_list ≤ size
      → Same size t (request_at formats t i o).0
  unfolding Same
  request_at-Same size t i none fits = (fits, refl)
  request_at-Same size t i (some sock) fits = keep_alive-Same size t i fits

  send_request-Same :
      (size : ℕ) (t : Task) (i : ℕ) (ec : ErrorCode) (message : String)
      → length t.socket_list ≤ size
      → Same size t (send_request formats t i ec message).0
  unfolding Same send_request
  send_request-Same size t i ErrorCode.success message fits =
      request_at-Same size t i (get_elem? t.socket_list i) fits
  send_request-Same size t i ErrorCode.message_size message fits =
      request_at-Same size t i (get_elem? t.socket_list i) fits
  send_request-Same size t i ec message fits = (fits, refl)

  timer_at-Same :
      (size : ℕ) (t : Task) (i : ℕ) (ec : ErrorCode) (message : String) (o : Option ℕ)
      → length t.socket_list ≤ size
      → Same size t (timer_at formats t i ec message o).0
  unfolding Same
  timer_at-Same size t i ec message none fits = (fits, refl)
  timer_at-Same size t i ec message (some due) fits =
      send_request-Same size (record t { socket_list = update (set_timer none) i t.socket_list }) i
        ec message (omega (arith, length-update (set_timer none) i t.socket_list))

  due_at-Same :
      (size : ℕ) (t : Task) (i : ℕ) (ec : ErrorCode) (message : String) (o : Option Socket)
      → length t.socket_list ≤ size
      → Same size t (due_at formats t i ec message o).0
  unfolding Same
  due_at-Same size t i ec message none fits = (fits, refl)
  due_at-Same size t i ec message (some sock) fits =
      timer_at-Same size t i ec message sock.timer fits

  Told-handle :
      (size : ℕ) (t : Task) (e : Event)
      → length t.socket_list ≤ size
      → IsReadable e
      → Gives (Told size t e) (handle formats t e)
  unfolding Same start_receive
  Told-handle size t (Event.request_due i ec message) fits readable =
      let same = due_at-Same size t i ec message (get_elem? t.socket_list i) fits in
      (same.0, inl same.1)
  Told-handle size t (Event.sent i ErrorCode.operation_aborted message) fits readable =
      (fits, inl refl)
  Told-handle size t (Event.sent i ec message) fits readable = (fits, inl refl)
  Told-handle size t (Event.received i ec message a) fits readable =
      received-Told size t i ec message a fits readable
  Told-handle size t (Event.answered ec) fits readable = (fits, inl refl)
  Told-handle size t (Event.deadline_due ErrorCode.operation_aborted) fits readable =
      (fits, inl refl)
  Told-handle size t (Event.deadline_due ec) fits readable = (fits, inl refl)
  Told-handle size t (Event.shutdown_due ErrorCode.operation_aborted flag) fits readable =
      (fits, inl refl)
  Told-handle size t (Event.shutdown_due ec none) fits readable = (fits, inl refl)
  Told-handle size t (Event.shutdown_due ec (some true)) fits readable = (fits, inl refl)
  Told-handle size t (Event.shutdown_due ec (some false)) fits readable = (fits, inl refl)

  step-Told :
      (size : ℕ) (t : Task) (e : Event)
      → length t.socket_list ≤ size
      → IsReadable e
      → Gives (Told size t e) (step formats t e)
  unfolding step
  step-Told size t e fits readable =
      if-both (Gives (Told size t e)) t.stopped (some (t, [])) (handle formats t e) (fits, inl refl)
        (Told-handle size t e fits readable)

  later :
      (size : ℕ) (e : Event) (es : List Event) (r s u : Result)
      → ((s ≡ r) ⊎ Receipt size e s)
      → ((u ≡ s) ⊎ Heard size es u)
      → (u ≡ r) ⊎ Heard size (e ∷ es) u
  later size e es r s u old (inr k) = inr (inr k)
  later size e es r s u (inl p) (inl q) = inl (q ∙ p)
  later size e es r s u (inr k) (inl q) = inr (inl (rw q k))

  run_events-Heard :
      (size : ℕ) (t : Task) (es : List Event)
      → length t.socket_list ≤ size
      → All IsReadable es
      → Gives (λ u. (u.result ≡ t.result) ⊎ Heard size es u.result) (run_events formats t es)
  unfolding run_events
  run_events-Heard size t [] fits readable = inl refl
  run_events-Heard size t (e ∷ es) fits readable =
      Gives-bind _ (step formats t e) (λ r. run_events formats r.0 es)
        (step-Told size t e fits readable.0)
        (λ r told.
          Gives-map _ _ (run_events formats r.0 es) (run_events-Heard size r.0 es told.0 readable.1)
            (λ u heard. later size e es t.result r.0.result u.result told.1 heard))

  -- A package of `run`.
  abbrev pub Outcome : ℕ → List Event → DataPackage J → Type 0
  Outcome size events pkg =
      ((err : Error) × (failed err ≡ true) × (pkg ≡ create_error formats.json err))
      ⊎ ((r : Result) × (pkg
            ≡ create_data formats.json formats.result r Transaction.client_traversal_result)
          × ((r ≡ blank_result) ⊎ Heard size events r))

  finish-Outcome :
      (size : ℕ) (events : List Event) (ec : ErrorCode) (message : String) (t : Task)
      → ((t.result ≡ blank_result) ⊎ Heard size events t.result)
      → Outcome size events (finish formats ec message t)
  unfolding finish from_asio
  finish-Outcome size events ErrorCode.success message t heard =
      elim (Bool-cases (failed t.error)) [
        | inl bad ↦ rw bad (inl (t.error, bad, refl))
        | inr fine ↦ rw fine (inr (t.result, refl, heard))
      ]
  finish-Outcome size events ec message t heard = inl (_, refl, refl)

  run-Outcome :
      (size : ℕ) (ec : ErrorCode) (message : String) (t : Task) (events : List Event)
      → length t.socket_list ≤ size
      → t.result ≡ blank_result
      → All IsReadable events
      → Gives (Outcome size events) (run formats ec message t events)
  unfolding run
  run-Outcome size ec message t events fits new readable = elim (Bool-cases (failed t.error)) [
    | inl bad ↦ rw bad (inl (t.error, bad, refl))
    | inr fine ↦ rw fine (
        Gives-bind (Outcome size events) (run_events formats t events)
          (λ u. some (finish formats ec message u)) (run_events-Heard size t events fits readable)
          (λ u heard. finish-Outcome size events ec message u (rw new at heard)))
  ]

  -- Hole punching always ends in a package, for any answers of the system and any completions, if the
  -- number of attempts can be clamped and every received datagram whose document has the key of an
  -- index has a number there; empty datagrams, failed receptions and documents without the key are
  -- not restricted. The package is an error, or it carries a result, which is then the empty one, a
  -- failure, or is made of a datagram that arrived at one of the sockets during the run: with the
  -- index of the socket, its port, the sender's address and port, and the index that the sender
  -- told.
  pub start_holepunching-Outcome :
      (rem95 : Option ℕ) (config : Config) (answers : ℕ → Opening) (ec : ErrorCode)
      (message : String) (events : List Event) {attempts : ℕ}
      → clamp_if_not_enough_files rem95 config.traversal_attempts 1 ≡ some attempts
      → All IsReadable events
      → Gives
          (Outcome attempts events)
          (start_holepunching formats rem95 config answers ec message events)
  unfolding start_holepunching new_task
  start_holepunching-Outcome rem95 config answers ec message events {attempts} clamped readable =
      let config' = record config { traversal_attempts = attempts } in
      rw clamped (
        run-Outcome attempts ec message (new_task config' answers) events
          (length-prepare config' answers 0 attempts) refl readable)

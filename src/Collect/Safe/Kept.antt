-- ===== src/Collect/Safe/Kept.antt =====
-- Every run of a task of AndroidSource/src/Components/UDPCollectTask.cpp.
use nat_data_collector.Prelude.{
  Gives, Gives-bind, if-both, ℕ, zero, suc, ◌+◌, ◌<◌, ◌≡◌, refl, ap, not, Option, none, some, List,
  [], ◌∷◌, length, All, arith, ◌>>=◌, map,
}
use nat_data_collector.Errors.{failed}
use nat_data_collector.Protocol.{create_error}
use nat_data_collector.Collect.{Stage, Device}
use nat_data_collector.Collect.Stages.{Task, Deadline, update, new_task, initial, blank_result}
use nat_data_collector.Collect.Steps.{stop_waiting, close_early, start_receive}
use nat_data_collector.Collect.Run.{
  Event, request_due, sent, received, deadline_due, global_due, Formats, handle_receive, at_place,
  quiet, request_at, deadline_at, global_at, handle, step, run, start_collect_task, run_service,
  finish,
}
use nat_data_collector.Collect.Safe.{Sound, WellFormed, prepare_stage-WellFormed}
use nat_data_collector.Collect.Safe.Events.{start_receive-WellFormed, close_early-WellFormed}
use nat_data_collector.Collect.Safe.Sockets.{FreePort}
use nat_data_collector.Collect.Safe.Handlers.{
  Left, handle_receive-WellFormed, request_at-WellFormed,
}

-- When the timer of a request fires, the system has a free port.
abbrev pub Fair : Event → Type 0
Fair (request_due i answers) = FreePort answers.bind
Fair _ = Unit

All-unit {ℓ} : {A : Type ℓ} (xs : List A) → All (λ _. Unit {0}) xs
All-unit [] = tt
All-unit (x ∷ xs) = (tt, All-unit xs)

length-map {ℓ κ} :
    {A : Type ℓ} {B : Type κ} (f : A → B) (xs : List A) → length (map f xs) ≡ length xs
length-map f [] = refl
length-map f (x ∷ xs) = ap suc (length-map f xs)

-- What is made of an element that may be there.
at_place-Gives {ℓ μ} :
    {A : Type ℓ} {B : Type μ} (Q : B → Type 0) (P : A → Type 0) (xs : List A) (i : ℕ)
    (nothing : Option B) (f : A → Option B)
    → All P xs
    → Gives Q nothing
    → ((x : A) → P x → i < length xs → Gives Q (f x))
    → Gives Q (at_place xs i nothing f)
at_place-Gives Q P [] i nothing f a g k = g
at_place-Gives Q P (x ∷ xs) zero nothing f a g k = k x a.0 (omega arith)
at_place-Gives Q P (x ∷ xs) (suc i) nothing f a g k =
    at_place-Gives Q P xs i nothing f a.1 g (λ y p b. k y p (omega arith))

quiet-Gives :
    (J : Type 0) {S : Type 0} (m : Option (Task S))
    → Gives WellFormed m
    → Gives (Left {J = J}) (quiet m)
quiet-Gives J none g = g
quiet-Gives J (some t) g = g

module _ {J : Type 0} (formats : Formats J) {S : Type 0} where
  global_at-WellFormed :
      (device : Device) (t : Task S) (o : Option (ℕ × ℕ))
      → WellFormed t
      → Gives WellFormed (global_at device t o)
  global_at-WellFormed device t none w = w
  global_at-WellFormed device t (some (i, duration)) w = prepare_stage-WellFormed device t (i + 1) w

  deadline_at-WellFormed :
      (device : Device) (t : Task S) (k : ℕ) (d : Deadline)
      → WellFormed t
      → Gives WellFormed (deadline_at device t k d)
  deadline_at-WellFormed device t k d w =
      let fired = record t { deadline_vector = update stop_waiting k t.deadline_vector } in
      if-both (Gives WellFormed) (not d.waits) (some t) _ w (
        at_place-Gives WellFormed (λ s. s.stage_index < length t.stages) t.socket_list d.place
          (some t) (close_early device fired) w.placed w
          (λ sock h b. close_early-WellFormed device fired sock w))

  handle-WellFormed :
      (t : Task S) (e : Event) → Fair e → WellFormed t → Gives Left (handle formats t e)
  handle-WellFormed t (request_due i answers) f w =
      at_place-Gives Left (λ s. s.stage_index < length t.stages) t.socket_list i (some (t, []))
        (request_at formats answers t i) w.placed w
        (λ sock h b. request_at-WellFormed formats answers t i sock f b h w)
  handle-WellFormed t (sent i ec message) f w = quiet-Gives J _ (
      at_place-Gives WellFormed (λ s. s.stage_index < length t.stages) t.socket_list i (some t)
        (λ sock. start_receive t i sock ec message) w.placed w
        (λ sock h b. start_receive-WellFormed t i sock ec message h w))
  handle-WellFormed t (received i ec message bytes device) f w = quiet-Gives J _ (
      at_place-Gives WellFormed (λ s. s.stage_index < length t.stages) t.socket_list i (some t)
        (λ sock. handle_receive formats device t sock ec message bytes) w.placed w
        (λ sock h b. handle_receive-WellFormed formats device t sock ec message bytes h w))
  handle-WellFormed t (deadline_due k device) f w = quiet-Gives J _ (
      at_place-Gives WellFormed (λ _. Unit {0}) t.deadline_vector k (some t)
        (deadline_at device t k) (All-unit t.deadline_vector) w
        (λ d h b. deadline_at-WellFormed device t k d w))
  handle-WellFormed t (global_due device) f w =
      quiet-Gives J _ (global_at-WellFormed device t t.global_deadline w)

  step-WellFormed : (t : Task S) (e : Event) → Fair e → WellFormed t → Gives Left (step formats t e)
  unfolding step
  step-WellFormed t e f w =
      if-both (Gives Left) t.stopped (some (t, [])) (handle formats t e) w
        (handle-WellFormed t e f w)

  run-WellFormed :
      (t : Task S) (es : List Event)
      → All Fair es
      → WellFormed t
      → Gives WellFormed (run formats t es)
  unfolding run
  run-WellFormed t [] f w = w
  run-WellFormed t (e ∷ es) f w =
      Gives-bind WellFormed (step formats t e) (λ r. run formats r.0 es) (step-WellFormed t e f.0 w)
        (λ r v. run-WellFormed r.0 es f.1 v)

  new_task-WellFormed :
      (device : Device) (info : List (Stage S)) (state : S) (current_port : ℕ)
      → All Sound info
      → current_port < 65536
      → Gives WellFormed (new_task device info state current_port)
  unfolding new_task
  new_task-WellFormed device info state current_port sound b =
      prepare_stage-WellFormed device (initial device info state current_port) 0 (record {
        results = length-map (λ _. blank_result) info;
        sound = sound;
        placed = tt;
        port = b;
      })

  -- A collection over stages with echo services, whose callbacks return settings with echo services
  -- for whatever was collected, always ends in a package, if some port from 1025 on is not in use
  -- whenever a request is due: for completions of the sockets and timers of the current stage, in any
  -- order, there is no division by 0 and no read behind a vector, each stage has its result, and the
  -- sockets are those of stages that exist. Not covered are completions that were queued before their
  -- stage was cleared, which read a destroyed element, and callbacks that fail, as that of a dynamic
  -- stage does when no address was received.
  pub start_collect_task-WellFormed :
      (device : Device) (info : List (Stage S)) (state : S) (current_port : ℕ) (events : List Event)
      → All Sound info
      → current_port < 65536
      → All Fair events
      → Gives
          (λ r. WellFormed r.0)
          (start_collect_task formats device info state current_port events)
  unfolding start_collect_task
  start_collect_task-WellFormed device info state current_port events sound b f =
      Gives-bind (λ r. WellFormed r.0) (new_task device info state current_port)
        (λ t. run_service formats t events)
        (new_task-WellFormed device info state current_port sound b)
        (λ t w.
          if-both (Gives (λ r. WellFormed r.0)) (failed t.error)
            (some (t, create_error formats.json t.error))
            (run formats t events >>= λ u. some (u, finish formats u)) w
            (Gives-bind (λ r. WellFormed r.0) (run formats t events)
              (λ u. some (u, finish formats u)) (run-WellFormed t events f w) (λ u v. v)))

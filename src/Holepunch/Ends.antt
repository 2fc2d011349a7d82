-- ===== src/Holepunch/Ends.antt =====
-- How a run of AndroidSource/src/Components/UDPHolepunching.cpp ends.
use nat_data_collector.Prelude.{
  String, ◌≡◌, Bool, true, false, Option, none, some, List, [], ◌∷◌, ◌++◌, ◌>>=◌, refl, ap, if-true,
  if-false, Option-cases, inl, inr, ◌∙◌,
}
use nat_data_collector.Types.{ErrorType, Transaction}
use nat_data_collector.Errors.{ErrorCode, failed}
use nat_data_collector.Protocol.{create, create_data}
use nat_data_collector.Holepunch.{
  Task, Event, Datagram, Formats, handle, step, run_events, finish, run, wants_shutdown,
}

module _ {J : Type 0} (formats : Formats J) where
  run_events-stopped :
      (t : Task) (es : List Event) → t.stopped ≡ true → run_events formats t es ≡ some t
  unfolding run_events step
  run_events-stopped t [] e = refl
  run_events-stopped t (x ∷ es) e =
      ap (λ (o : Option (Task × List (Datagram J))). o >>= λ r. run_events formats r.0 es)
        (if-true t.stopped _ _ e)
      ∙ run_events-stopped t es e

  run_events-append :
      (t : Task) (es fs : List Event) {u : Task}
      → run_events formats t es ≡ some u
      → run_events formats t (es ++ fs) ≡ run_events formats u fs
  unfolding run_events
  run_events-append t [] fs {u} e = ap (λ (v : Task). run_events formats v fs) (cc e)
  run_events-append t (x ∷ es) fs {u} e = elim (Option-cases (step formats t x)) [
    | inl fails ↦ cc (rw fails at e)
    | inr (r, goes) ↦ rw goes (run_events-append r.0 es fs (rw goes at e))
  ]

  -- The event stops a task that still runs, and what comes behind it changes nothing.
  stop-last :
      (t : Task) (es : List Event) (x : Event) (fs : List Event) {u v : Task}
      → run_events formats t es ≡ some u
      → u.stopped ≡ false
      → handle formats u x ≡ some (v, [])
      → v.stopped ≡ true
      → run_events formats t (es ++ x ∷ fs) ≡ some v
  unfolding run_events step
  stop-last t es x fs {u} {v} goes on stops done =
      run_events-append t es (x ∷ fs) goes
      ∙ ap (λ (o : Option (Task × List (Datagram J))). o >>= λ r. run_events formats r.0 fs)
          (if-false u.stopped _ _ on ∙ stops)
      ∙ run_events-stopped v fs done

  run_lem :
      (t : Task) (es : List Event) {u : Task} (message : String)
      → failed t.error ≡ false
      → run_events formats t es ≡ some u
      → run formats ErrorCode.success message t es
        ≡ some (finish formats ErrorCode.success message u)
  unfolding run
  run_lem t es message fine e = rw (fine, e) refl

  shutdown-ends :
      (t u : Task) (events rest : List Event) (message : String) (flag : Option Bool)
      → failed t.error ≡ false
      → run_events formats t events ≡ some u
      → u.stopped ≡ false
      → wants_shutdown flag ≡ true
      → run formats ErrorCode.success message t
          (events ++ Event.shutdown_due ErrorCode.success flag ∷ rest)
        ≡ some (
            create formats.json ErrorType.error
              ("Abort Traversal, shutdown requested from main thread" ∷ []))
  unfolding finish
  shutdown-ends t u events rest message none fine goes on wants =
      run_lem t _ message fine
        (stop-last t events (Event.shutdown_due ErrorCode.success none) rest goes on refl refl)
  shutdown-ends t u events rest message (some true) fine goes on wants =
      run_lem t _ message fine (
        stop-last t events (Event.shutdown_due ErrorCode.success (some true)) rest goes on refl
          refl)
  shutdown-ends t u events rest message (some false) fine goes on wants = cc wants

  -- A task that was set up without an error, and whose io service runs without one, has handled
  -- some events and still runs. If the deadline is the next event, the task ends with the result as
  -- it is, the empty one if no index was told; if a request to shut down is found next, it ends
  -- with an error; if the answer to the other host has been sent next and no error is there, it ends
  -- with the result as it is. What comes behind this event changes nothing.
  pub run-ends :
      (t u : Task) (events rest : List Event) (message : String)
      → failed t.error ≡ false
      → run_events formats t events ≡ some u
      → u.stopped ≡ false
      → failed u.error ≡ false
      → (run formats ErrorCode.success message t
            (events ++ Event.deadline_due ErrorCode.success ∷ rest)
          ≡ some (
              create_data formats.json formats.result u.result Transaction.client_traversal_result))
        × ((flag : Option Bool)
            → wants_shutdown flag ≡ true
            → run formats ErrorCode.success message t
                (events ++ Event.shutdown_due ErrorCode.success flag ∷ rest)
              ≡ some (
                  create formats.json ErrorType.error
                    ("Abort Traversal, shutdown requested from main thread" ∷ [])))
        × ((ec : ErrorCode)
            → run formats ErrorCode.success message t (events ++ Event.answered ec ∷ rest)
              ≡ some (
                  create_data formats.json formats.result u.result
                    Transaction.client_traversal_result))
  unfolding finish
  run-ends t u events rest message fine goes on sound = (
    run_lem t _ message fine
        (stop-last t events (Event.deadline_due ErrorCode.success) rest goes on refl refl),
    (λ flag wants. shutdown-ends t u events rest message flag fine goes on wants),
    (λ ec.
        run_lem t _ message fine (stop-last t events (Event.answered ec) rest goes on refl refl)
        ∙ ap some (if-false (failed u.error) _ _ sound)),
  )

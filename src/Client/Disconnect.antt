-- ===== src/Client/Disconnect.antt =====
-- `Disconnect` and a new `ConnectAsync` of AndroidSource/src/Components/NatTraverserClient.cpp.
use nat_data_collector.Prelude.{Bool, true, false, ◌||◌, some, [], ◌≡◌, ◌∙◌, refl, ap}
use nat_data_collector.Errors.{Error, no_error, failed}
use nat_data_collector.Errors.Laws.{failed-add}
use nat_data_collector.Timer.{set_active}
use nat_data_collector.Client.{
  Client, Future, Ends, invalid, running, ready, result_of, disconnect, connect_async,
}

-- Whether a future ends with a failure, `late` being the end of a task that runs.
abbrev pub ends_badly : Future → Error → Bool
ends_badly invalid late = false
ends_badly running late = failed late
ends_badly (ready e) late = failed e

or_false : (b : Bool) → b ≡ (b || false)
or_false true = refl
or_false false = refl

failed-result_of :
    (future : Future) (late response : Error)
    → failed (result_of future late response) ≡ (failed response || ends_badly future late)
failed-result_of invalid late response = or_false (failed response)
failed-result_of running late response = failed-add response late
failed-result_of (ready e) late response = failed-add response e

-- Disconnecting reports a failure exactly if the connection or a task ended or ends with one, and a
-- client that connects after it starts with empty queues, a flag that is not set and one task only,
-- the connection.
pub disconnect_lem :
    (c : Client) (ends : Ends)
    → let r = disconnect c ends in
      (failed r.0 ≡ (
        ((ends_badly c.rw_future ends.rw || ends_badly c.analyze_nat_future ends.analyze)
          || ends_badly c.traverse_nat_future ends.traverse)
        || ends_badly c.http_future ends.http))
      × (connect_async r.1 ends ≡ (
        no_error,
        record r.1 {
          write_queue = some [];
          read_queue = some [];
          shutdown_flag = some false;
          rw_future = running;
        },
      ))
unfolding disconnect connect_async set_active
disconnect_lem c ends =
    let rw = result_of c.rw_future ends.rw no_error in
    let analyze = result_of c.analyze_nat_future ends.analyze rw in
    let traverse = result_of c.traverse_nat_future ends.traverse analyze in
    (
      failed-result_of c.http_future ends.http traverse
          ∙ ap (λ b. b || ends_badly c.http_future ends.http)
              (failed-result_of c.traverse_nat_future ends.traverse analyze
                ∙ ap (λ b. b || ends_badly c.traverse_nat_future ends.traverse)
                    (failed-result_of c.analyze_nat_future ends.analyze rw
                      ∙ ap (λ b. b || ends_badly c.analyze_nat_future ends.analyze)
                          (failed-result_of c.rw_future ends.rw no_error))),
      refl,
    )

-- ===== src/CollectSamples/Timers.antt =====
-- When AndroidSource/src/Components/GlobCollectSamples.cpp tries again after a failure.
use nat_data_collector.Prelude.{
  ap, if-true, Bool, ℕ, ◌+◌, ◌<◌, ◌≡◌, refl, true, false, some, [], lt→ltb, Gives,
}
use nat_data_collector.Types.{Transaction}
use nat_data_collector.Errors.{failed}
use nat_data_collector.Protocol.{DataPackage, create_bare}
use nat_data_collector.Timer.{has_expired}
use nat_data_collector.Model.{Model}
use nat_data_collector.Client.{disconnect, connect_async, running}
use nat_data_collector.Client.Tasks.{create_timer_async}
use nat_data_collector.CollectSamples.{
  disconnected, connected_idle, App, Codecs, Surroundings, is_disconnected, shutdown, on_frame_time,
  start_glob_state, on_transaction_event, on_package, on_published, set_collect, retry_later,
  on_timer, blank_config,
}

-- The state that `Shutdown` leaves behind, with the timer or without.
abbrev ended : {J S : Type 0} → Bool → Surroundings → Model × App J S → Model × App J S
ended timed env (m, a) =
    set_collect
      (record {
        current = disconnected;
        readable_time_stamp = "";
        analyze_collect_ports = record { stages = [] };
        client = retry_later timed env.now (disconnect a.collect.client env.ends).1;
        config = blank_config;
      })
      (m, a)

module _ {J S : Type 0} (codecs : Codecs J) where
  on_package-failed :
      (env : Surroundings) (pkg : DataPackage J) (w : Model × App J S)
      → failed pkg.error ≡ true
      → on_package codecs env pkg w ≡ some (ended (failed pkg.error) env w)
  unfolding on_package shutdown
  on_package-failed env pkg w bad =
      ap (λ (p : DataPackage J). on_published codecs env p.transaction p w)
        (if-true (failed pkg.error) (record pkg { transaction = Transaction.error }) pkg bad)

  -- What the end of the timer makes of such a state.
  abbrev Retries : Surroundings → Model × App J S → Type 0
  Retries later u =
      (u.1.collect.current ≡ disconnected)
      × (u.1.collect.config ≡ blank_config)
      × (has_expired u.1.collect.client.timer later.now ≡ true)
      × Gives
          (λ v.
            (v.1.collect.current ≡ connected_idle)
            × (v.1.collect.client.rw_future ≡ running)
            × (v.1.collect.client.read_queue ≡ some [])
            × (v.1.collect.client.write_queue ≡ some []))
          (on_timer codecs later u)

  ended-Retries :
      (timed : Bool) (env later : Surroundings) (w : Model × App J S)
      → timed ≡ true
      → env.now + 300000 < later.now
      → Retries later (ended timed env w)
  unfolding on_package on_timer on_transaction_event start_glob_state connect_async disconnect
      create_timer_async has_expired create_bare
  ended-Retries true env later w e passed =
      (refl, refl, lt→ltb (env.now + 300000) later.now passed, (refl, refl, refl, refl))
  ended-Retries false env later w e passed = cc e

  -- A package with a failure ends the collection: it goes back to its initial configuration and the
  -- state DISCONNECTED, and sets its timer. Once more than five minutes have passed by the clock,
  -- the timer has expired, and its end connects the client again: the connection runs, and its
  -- queues are empty.
  pub on_timer-reconnects :
      (env later : Surroundings) (pkg : DataPackage J) (w : Model × App J S)
      → failed pkg.error ≡ true
      → env.now + 300000 < later.now
      → Gives
          (λ u.
            (u.1.collect.current ≡ disconnected)
            × (u.1.collect.config ≡ blank_config)
            × (has_expired u.1.collect.client.timer later.now ≡ true)
            × Gives
                (λ v.
                  (v.1.collect.current ≡ connected_idle)
                  × (v.1.collect.client.rw_future ≡ running)
                  × (v.1.collect.client.read_queue ≡ some [])
                  × (v.1.collect.client.write_queue ≡ some []))
                (on_timer codecs later u))
          (on_package codecs env pkg w)
  on_timer-reconnects env later pkg w bad passed =
      rw (on_package-failed env pkg w bad) (ended-Retries (failed pkg.error) env later w bad passed)

-- A frame of more than five seconds, in a state other than DISCONNECTED, ends the collection as a
-- failure does, but the timer is set to the delay of the initial configuration, three minutes,
-- whatever delay the collection was configured with, and not to the five minutes that the log
-- announces.
pub on_frame_time-timer :
    {J S : Type 0} (env : Surroundings) (time : ℕ) (w : Model × App J S)
    → 5000 < time
    → is_disconnected w.1.collect.current ≡ false
    → ((on_frame_time env time w).1.collect.current ≡ disconnected)
      × ((on_frame_time env time w).1.collect.client.timer
          ≡ record { expiry_time = env.now + 180000; is_active = true })
unfolding on_frame_time shutdown create_timer_async
on_frame_time-timer env time w long busy = rw (lt→ltb 5000 time long, busy) (refl, refl)

-- ===== src/Collect/Clock.antt =====
-- The round trip times of AndroidSource/src/Components/UDPCollectTask.cpp.
use nat_data_collector.Prelude.{ℕ, ◌+◌, ◌-◌, ◌%◌, ◌<◌, ◌≡◌, ltb, if◌then◌else◌, arith}
use nat_data_collector.Collect.Steps.{round_trip, time_stamp_only_ms}

-- For a reply within ten seconds the round trip time that is stored is the time that has passed
-- only if the time stamp, which counts to ten seconds, has not started again in between; otherwise
-- it is ten seconds less that time.
pub round_trip_lem :
    (start passed : ℕ)
    → passed < 10000
    → round_trip (start + passed) (time_stamp_only_ms start)
      ≡ (if ltb (start % 10000 + passed) 10000 then passed else 10000 - passed)
unfolding round_trip
round_trip_lem start passed h = ground arith

-- ===== src/Timer/Expiry.antt =====
-- When the timer of AndroidSource/src/CustomCollections/SimpleTimer.h expires.
use nat_data_collector.Prelude.{ℕ, ◌+◌, ◌<◌, ◌≡◌, ◌↔◌, refl, true, false, arith}
use nat_data_collector.Timer.{expires_from_now, has_expired, get_remaining_duration_ms, set_active}

-- A timer that is set at a time expires exactly after its duration, once it was switched off it
-- never does, and while it has not expired the time now and the time that remains add up to the
-- time at which it is due.
pub has_expired_lem :
    (start duration now : ℕ)
    → let t = expires_from_now start duration in
      ((has_expired t now ≡ true) ↔ (start + duration < now))
      × (has_expired (set_active t false) now ≡ false)
      × ((has_expired t now ≡ false) ↔ (now + get_remaining_duration_ms t now ≡ start + duration))
unfolding expires_from_now has_expired get_remaining_duration_ms set_active
has_expired_lem start duration now = (ground arith, refl, ground arith)

-- ===== src/Timer.antt =====
-- The one-shot timer of the client: AndroidSource/src/CustomCollections/SimpleTimer.h. Times are
-- milliseconds, and `now` is what the system clock gives.
pub mod Expiry
use nat_data_collector.Prelude.{ℕ, ◌+◌, ◌-◌, Bool, true, false, not, ltb, if◌then◌else◌}

pub record SimpleTimer : Type 0 where
  pub expiry_time : ℕ
  pub is_active : Bool

abbrev pub new_timer : SimpleTimer
new_timer = record { expiry_time = 0; is_active = false }

unfoldable pub expires_from_now : ℕ → ℕ → SimpleTimer
expires_from_now now duration = record { expiry_time = now + duration; is_active = true }

unfoldable pub has_expired : SimpleTimer → ℕ → Bool
has_expired t now = if not t.is_active then false else ltb t.expiry_time now

unfoldable pub get_remaining_duration_ms : SimpleTimer → ℕ → ℕ
get_remaining_duration_ms t now =
    if not t.is_active then 0 else if ltb t.expiry_time now then 0 else t.expiry_time - now

unfoldable pub set_active : SimpleTimer → Bool → SimpleTimer
set_active t active = record t { is_active = active }

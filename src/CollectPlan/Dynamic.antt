-- ===== src/CollectPlan/Dynamic.antt =====
-- The start of a dynamic stage in AndroidSource/src/Components/NatTraverserClient.cpp.
use native.Mathlib.Nat.{mod-le, mod-eq_of_lt}
use nat_data_collector.Prelude.{ℕ, zero, suc, ◌*◌, ◌/◌, ◌%◌, ◌<◌, ◌≤◌, ◌≡◌, refl, Gives, arith}
use nat_data_collector.Data.{MultiAddressVector}
use nat_data_collector.Collect.{Settings, min}
use nat_data_collector.CollectPlan.{
  DynamicStage, start_dynamic, duration_since, dynamic_settings, count_addresses,
}

min-bounds : (a b : ℕ) → (min a b % 65536 ≤ a) × (min a b % 65536 ≤ b)
unfolding min
min-bounds a b = ground arith

-- The limits of a dynamic stage, for `n` received addresses.
pub record Limited (stage : DynamicStage) (n duration : ℕ) (curr s : Settings) : Type 0 where
  pub sockets : s.sample_size ≤ stage.max_sockets
  pub multiple : s.sample_size ≤ stage.k_multiple * n
  pub rate : s.sample_rate_ms ≤ stage.max_rate_ms
  pub pace : s.sample_rate_ms ≤ duration / n
  pub services : s.echo_server_num_services ≡ curr.echo_server_num_services

settings-Limited :
    (stage : DynamicStage) (curr : Settings) (n duration : ℕ)
    → 0 < n
    → Gives (Limited stage n duration curr) (dynamic_settings stage curr n duration)
settings-Limited stage curr zero duration h = absurd (omega arith)
settings-Limited stage curr (suc n) duration h =
    let m = min-bounds (stage.k_multiple * suc n % 4294967296) stage.max_sockets in
    let r = min-bounds (duration / suc n) stage.max_rate_ms in
    let w = mod-le (stage.k_multiple * suc n) 4294967296 in
    record {
      sockets = m.1;
      multiple = omega (arith, m.0, w);
      rate = r.1;
      pace = r.0;
      services = refl;
    }

-- When at least one address was received, a dynamic stage starts with at most `max_sockets` and at
-- most `k_multiple` requests for each received address, at a rate of at most `max_rate_ms` that is
-- not slower than one request in the time that an address took so far on average.
pub start_dynamic-Limited :
    (stage : DynamicStage) (curr : Settings) (collected : MultiAddressVector) (start now : ℕ)
    → 0 < count_addresses collected.stages
    → count_addresses collected.stages < 4294967296
    → Gives
        (Limited stage (count_addresses collected.stages) (duration_since start now) curr)
        (start_dynamic stage curr collected start now)
unfolding start_dynamic
start_dynamic-Limited stage curr collected start now pos small =
    rw (mod-eq_of_lt small) (
      settings-Limited stage curr (count_addresses collected.stages) (duration_since start now) pos)

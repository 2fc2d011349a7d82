-- ===== src/Traverse/Plan.antt =====
-- How long the two devices punch holes, in AndroidSource/src/Components/GlobTraverse.cpp.
use native.Mathlib.Nat.{mod-le, mul-div-le, mul-le-mul_left, le_trans}
use nat_data_collector.Prelude.{
  ℕ, zero, suc, ◌+◌, ◌*◌, ◌/◌, ◌%◌, ◌≤◌, ◌≡◌, refl, some, Bool-cases, inl, inr, ltb, arith,
  Whenever, Whenever-bind, Whenever-at, ◌⊎◌, ◌>>=◌, ◌∙◌, sym,
}
use nat_data_collector.Types.{NatType}
use nat_data_collector.Data.{Address}
use nat_data_collector.Collect.{Settings}
use nat_data_collector.Holepunch.{Config}
use nat_data_collector.Traverse.Run.{
  deadline, sample_rate, int_product, config_for, traversal_config, with_rate,
}

-- A product is what it should be, and fits an int.
int_product-fits : (a b : ℕ) → Whenever (λ p. (p ≡ a * b) × (p ≤ 2147483647)) (int_product a b)
unfolding int_product
int_product-fits a b = elim (Bool-cases (ltb (a * b) 2147483648)) [
  | inl fits ↦ rw fits (refl, ground arith)
  | inr large ↦ rw large tt
]

-- The deadline lies five seconds behind both durations.
deadline-behind :
    (other own : ℕ)
    → other ≤ 2147483647
    → own ≤ 2147483647
    → (other + 5000 ≤ deadline other own) × (own + 5000 ≤ deadline other own)
deadline-behind other own h k = ground arith

-- A rate times the number of samples stays below the duration that it was made of.
rate_fits : (d n : ℕ) → suc n * (d / suc n % 65536) ≤ d
rate_fits d n = le_trans (mul-le-mul_left (suc n) (mod-le (d / suc n) 65536)) (mul-div-le d (suc n))

deadline_comm : (a b : ℕ) → deadline a b ≡ deadline b a
deadline_comm a b = ground arith

sample_rate-fits :
    (other own n : ℕ)
    → Whenever (λ rate. (n * rate ≤ other) ⊎ (n * rate ≤ own)) (sample_rate other own n)
unfolding sample_rate
sample_rate-fits other own zero = tt
sample_rate-fits other own (suc n) = elim (Bool-cases (ltb own other)) [
  | inl more ↦ rw more (inl (rate_fits other n))
  | inr less ↦ rw less (inr (rate_fits own n))
]

-- What a configuration is planned by.
abbrev Planned : ℕ → ℕ → Config × Settings → Type 0
Planned other own r =
    (other ≤ 2147483647)
    × (own ≤ 2147483647)
    × (r.0.deadline_duration_ms ≡ deadline other own)
    × ((r.0.traversal_attempts * r.0.traversal_rate ≤ other)
        ⊎ (r.0.traversal_attempts * r.0.traversal_rate ≤ own))

config_for-Planned :
    (nat_type : NatType) (a : Address) (other own port : ℕ) (s : Settings)
    → other ≤ 2147483647
    → own ≤ 2147483647
    → Whenever (Whenever (Planned other own)) (config_for nat_type a other own port s)
config_for-Planned NatType.cone a other own port s h k = (h, k, refl, inl (omega arith))
config_for-Planned NatType.random_sym a other own port s h k =
    Whenever-bind (Whenever (Planned other own)) (sample_rate other own s.sample_size)
      (λ rate. some (some (with_rate a (deadline other own) s rate)))
      (λ rate e. (
        h,
        k,
        refl,
        Whenever-at (λ (r : ℕ). (s.sample_size * r ≤ other) ⊎ (s.sample_size * r ≤ own))
            (sample_rate other own s.sample_size) (sample_rate-fits other own s.sample_size) e,
      ))
config_for-Planned _ a other own port s h k = tt

planned :
    (nat_type : NatType) (a : Address) (other_size other_rate port : ℕ) (s : Settings)
    → Whenever
        (Whenever (Planned (other_size * other_rate) (s.sample_size * s.sample_rate_ms)))
        (traversal_config nat_type a other_size other_rate port s)
unfolding traversal_config
planned nat_type a other_size other_rate port s =
    let P = Whenever (Planned (other_size * other_rate) (s.sample_size * s.sample_rate_ms)) in
    Whenever-bind P (int_product other_size other_rate)
      (λ other. int_product s.sample_size s.sample_rate_ms >>= λ own.
        config_for nat_type a other own port s)
      (λ other e.
        Whenever-bind P (int_product s.sample_size s.sample_rate_ms)
          (λ own. config_for nat_type a other own port s)
          (λ own f.
            let p =
              Whenever-at (λ (p : ℕ). (p ≡ other_size * other_rate) × (p ≤ 2147483647))
                (int_product other_size other_rate) (int_product-fits other_size other_rate) e in
            let q =
              Whenever-at (λ (q : ℕ). (q ≡ s.sample_size * s.sample_rate_ms) × (q ≤ 2147483647))
                (int_product s.sample_size s.sample_rate_ms)
                (int_product-fits s.sample_size s.sample_rate_ms) f in
            rw (sym p.0, sym q.0) (config_for-Planned nat_type a other own port s p.1 q.1)))

traversal_config-planned :
    (nat_type : NatType) (a : Address) (other_size other_rate port : ℕ) (s : Settings) {c : Config}
    {t : Settings}
    → traversal_config nat_type a other_size other_rate port s ≡ some (some (c, t))
    → Planned (other_size * other_rate) (s.sample_size * s.sample_rate_ms) (c, t)
traversal_config-planned nat_type a other_size other_rate port s e =
    let P = Planned (other_size * other_rate) (s.sample_size * s.sample_rate_ms) in
    Whenever-at (Whenever P) (traversal_config nat_type a other_size other_rate port s)
      (planned nat_type a other_size other_rate port s) e

-- A host that can plan its traversal, which takes that both products of a number of requests and a
-- rate fit an int (below 2 ^ 31; else the source is undefined and nothing is planned), sends all its
-- requests, and the other host all of its own, at least five seconds before the deadline: the
-- attempts times the new rate, the product that the own host had before, and the product of the other
-- host, each with 5000 added, do not exceed the deadline.
pub traversal_config-deadline :
    (nat_type : NatType) (a : Address) (other_size other_rate port : ℕ) (own : Settings)
    {c : Config} {s : Settings}
    → traversal_config nat_type a other_size other_rate port own ≡ some (some (c, s))
    → (c.traversal_attempts * c.traversal_rate + 5000 ≤ c.deadline_duration_ms)
      × (own.sample_size * own.sample_rate_ms + 5000 ≤ c.deadline_duration_ms)
      × (other_size * other_rate + 5000 ≤ c.deadline_duration_ms)
traversal_config-deadline nat_type a other_size other_rate port own e =
    let (h, k, at, fits) = traversal_config-planned nat_type a other_size other_rate port own e in
    let b = deadline-behind (other_size * other_rate) (own.sample_size * own.sample_rate_ms) h k in
    rw at (elim fits [ inl le ↦ omega arith | inr le ↦ omega arith ], b.1, b.0)

-- Two hosts of which each is told the number of requests and the rate of the other wait equally
-- long, whatever their NAT types, predictions and ports.
pub traversal_config-same_deadline :
    (nat_type other_type : NatType) (a b : Address) (port other_port : ℕ) (own other : Settings)
    {c d : Config} {s t : Settings}
    → traversal_config nat_type a other.sample_size other.sample_rate_ms port own
      ≡ some (some (c, s))
    → traversal_config other_type b own.sample_size own.sample_rate_ms other_port other
      ≡ some (some (d, t))
    → c.deadline_duration_ms ≡ d.deadline_duration_ms
traversal_config-same_deadline nat_type other_type a b port other_port own other e f =
    let other_duration = other.sample_size * other.sample_rate_ms in
    let own_duration = own.sample_size * own.sample_rate_ms in
    (traversal_config-planned nat_type a other.sample_size other.sample_rate_ms port own e).2
    ∙ deadline_comm other_duration own_duration
    ∙ sym
        (traversal_config-planned other_type b own.sample_size own.sample_rate_ms other_port other
          f).2

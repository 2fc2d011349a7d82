-- ===== src/Collect/Search.antt =====
-- The search for a port in AndroidSource/src/Components/UDPCollectTask.cpp.
use native.Mathlib.Nat.{mod-lt}
use mathlib.Core.Bool.{true≢false}
use nat_data_collector.Prelude.{
  ℕ, zero, suc, ◌+◌, ◌-◌, ◌%◌, ◌<◌, ◌≤◌, ◌≡◌, refl, true, false, none, some, arith, ltb, Bool-cases,
  if◌then◌else◌, sym, ap, ◌∙◌, ◌≢◌, inl, inr,
}
use nat_data_collector.Errors.{ErrorCode}
use nat_data_collector.Collect.Ports.{search, in_use, at_least_1025}

-- The ports that the search tries before it tries `p`, and one step of it.
abbrev distance : ℕ → ℕ → ℕ
distance c p =
    if ltb p (at_least_1025 c) then 65536 - at_least_1025 c + p - 1025 else p - at_least_1025 c

distance-next :
    (c p f : ℕ)
    → c < 65536
    → 1025 ≤ p
    → p < 65536
    → at_least_1025 c ≢ p
    → distance c p < suc f
    → distance ((at_least_1025 c + 1) % 65536) p < f
distance-next c p f cb lo hi ne d = ground arith

at_least-bounds : (c : ℕ) → c < 65536 → (1025 ≤ at_least_1025 c) × (at_least_1025 c < 65536)
at_least-bounds c b = ground arith

search-returns :
    (f : ℕ) (bind : ℕ → ErrorCode) (c p : ℕ)
    → c < 65536
    → 1025 ≤ p
    → p < 65536
    → in_use (bind p) ≡ false
    → distance c p < f
    → (q : ℕ) × (search f bind c ≡ some q) × (1025 ≤ q) × (q < 65536) × (in_use (bind q) ≡ false)
unfolding search
search-returns zero bind c p cb lo hi free d = absurd (omega arith)
search-returns (suc f) bind c p cb lo hi free d =
    let here = at_least_1025 c in
    elim (Bool-cases (in_use (bind here))) [
      | inl t ↦
          let ne : here ≢ p = λ e. true≢false (sym t ∙ ap (λ q. in_use (bind q)) e ∙ free) in
          rw t (
            search-returns f bind ((here + 1) % 65536) p (mod-lt (here + 1) (omega arith)) lo hi
              free (distance-next c p f cb lo hi ne d))
      | inr t ↦ rw t (here, refl, (at_least-bounds c cb).0, (at_least-bounds c cb).1, t)
    ]

-- From any static port the search ends within one round over the ports from 1025 on if one of
-- them, `p`, is not in use, and then at a port that is not in use, not below 1025 and a uint16_t.
pub search_lem :
    (bind : ℕ → ErrorCode) (current p : ℕ)
    → current < 65536
    → 1025 ≤ p
    → p < 65536
    → in_use (bind p) ≡ false
    → (q : ℕ) × (search 64511 bind current ≡ some q)
      × (1025 ≤ q)
      × (q < 65536)
      × (in_use (bind q) ≡ false)
search_lem bind current p b lo hi free =
    search-returns 64511 bind current p b lo hi free (ground arith)

-- If all ports from 1025 on are in use, the search never ends, whatever the fuel.
pub search-all :
    (fuel : ℕ) (bind : ℕ → ErrorCode) (current : ℕ)
    → current < 65536
    → ((q : ℕ) → 1025 ≤ q → q < 65536 → in_use (bind q) ≡ true)
    → search fuel bind current ≡ none
unfolding search
search-all zero bind current b all = refl
search-all (suc f) bind current b all =
    let here = at_least-bounds current b in
    rw (all (at_least_1025 current) here.0 here.1) (
      search-all f bind ((at_least_1025 current + 1) % 65536)
        (mod-lt (at_least_1025 current + 1) (omega arith)) all)

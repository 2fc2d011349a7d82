-- ===== src/Predictor/Random.antt =====
-- What `PredictRandomNAT` draws (AndroidSource/src/Predictors/Predictor.h).
use mathlib.Core.Path.{subst}
use native.Mathlib.Nat.{div-lt_iff_lt-mul, mul_comm}
use nat_data_collector.Prelude.{
  ℕ, zero, suc, ◌+◌, ◌<◌, ◌≤◌, ◌≡◌, ◌≢◌, ◌*◌, ◌/◌, refl, sym, ap, ◌∙◌, true, false, Option, some,
  List, [], ◌∷◌, ◌==◌, arith, length, get_elem?, All, inl, inr, Bool-cases, Option-cases,
}
use nat_data_collector.Types.{Transaction}
use nat_data_collector.Json.{Json, Codec}
use nat_data_collector.Protocol.{DataPackage, create_data}
use nat_data_collector.Data.{Address, MultiAddressVector}
use nat_data_collector.Predictor.{
  predict_random_nat, predicted, of_draw, last_port, Draw, drawn, drawing, out_of_range,
  config_index, draw,
}

module _ (rand_max : ℕ) (rand : ℕ → ℕ) (addresses : List Address) (last : ℕ) where
  -- The address of a call of `rand()`.
  abbrev pub choice : ℕ → Option Address
  choice n = get_elem? addresses (config_index rand_max (rand n) (length addresses))

  -- A call gives an address that ends the loop.
  pub record Ends (n : ℕ) : Type 0 where
    pub address : Address
    pub chosen : choice n ≡ some address
    pub other : (address.port == last) ≡ false

  -- Every call before a given one is in range.
  abbrev pub InRange : ℕ → Type 0
  InRange n = (j : ℕ) → j < n → (a : Address) × (choice j ≡ some a)

  differs : (n m : ℕ) (a : Address) → Ends m → choice n ≡ some a → (a.port == last) ≡ true → n ≢ m
  differs n m a e c same h =
      let both : some a ≡ some e.address = sym c ∙ ap choice h ∙ e.chosen in
      let one : a ≡ e.address = cc both in
      let no : (a.port == last) ≡ false = ap (λ x. x.port == last) one ∙ e.other in cc (same, no)

  draw_from :
      (f n m : ℕ)
      → n ≤ m
      → m < n + f
      → InRange (suc m)
      → Ends m
      → (a : Address) × (draw rand_max rand addresses last f n ≡ drawn a)
        × ((a.port == last) ≡ false)
  unfolding draw
  draw_from zero n m h g r e = absurd (omega arith)
  draw_from (suc f) n m h g r e =
      let (a, c) = r n (omega arith) in
      elim (Bool-cases (a.port == last)) [
        | inr other ↦ (a, rw (c, other) refl, other)
        | inl same ↦
            let ne = differs n m a e c same in
            let (b, d, o) = draw_from f (suc n) m (omega arith) (omega arith) r e in
            (b, rw (c, same) d, o)
      ]

  -- If call number m of `rand()` leads to an address whose port is not the last one, and no call up
  -- to it leads behind the end of the addresses, then the loop, with fuel above m, ends with an
  -- address whose port is not the last one.
  pub draw_stops :
      (f m : ℕ)
      → m < f
      → InRange (suc m)
      → Ends m
      → (a : Address) × (draw rand_max rand addresses last f 0 ≡ drawn a)
        × ((a.port == last) ≡ false)
  draw_stops f m h r e = draw_from f 0 m (omega arith) (omega arith) r e

  chosen-All :
      (P : Address → Type 0) (ys : List Address) (i : ℕ) (a : Address)
      → All P ys
      → get_elem? ys i ≡ some a
      → P a
  chosen-All P [] i a p e = absurd (cc e)
  chosen-All P (x ∷ xs) zero a p e = subst P (cc e) p.0
  chosen-All P (x ∷ xs) (suc i) a p e = chosen-All P xs i a p.1 e

  -- If every collected address has the last port, the loop gives no address, whatever the values of
  -- `rand()` are and however long it runs.
  pub draw_never :
      (f n : ℕ) (a : Address)
      → All (λ b. (b.port == last) ≡ true) addresses
      → draw rand_max rand addresses last f n ≢ drawn a
  unfolding draw
  draw_never zero n a p e = cc e
  draw_never (suc f) n a p e = elim (Option-cases (choice n)) [
    | inl c ↦ cc (rw c at e)
    | inr (b, c) ↦
        let same =
          chosen-All (λ x. (x.port == last) ≡ true) addresses
            (config_index rand_max (rand n) (length addresses)) b p c in
        draw_never f (suc n) a p (rw (c, same) at e)
  ]

positive_factor : (q size n : ℕ) → q * size ≡ n + 1 → 0 < q
positive_factor zero size n e = absurd (omega (arith, e))
positive_factor (suc q) size n e = omega arith

-- If the number of addresses divides RAND_MAX + 1, every value of `rand()` leads to an address.
pub config_index_lem :
    (rand_max r size : ℕ)
    → r ≤ rand_max
    → 0 < size
    → ((rand_max + 1) / size) * size ≡ rand_max + 1
    → config_index rand_max r size < size
unfolding config_index
config_index_lem rand_max r size h pos e =
    let q = (rand_max + 1) / size in
    let positive : 0 < q = positive_factor q size rand_max e in
    (div-lt_iff_lt-mul positive).1 (rw (mul_comm size q) (omega (arith, e)))

-- The samples of two stages.
abbrev pub two_stages : List Address → List Address → MultiAddressVector
two_stages first second = record {
  stages =
      record { addresses = first; sampling_rate_ms = 0 }
      ∷ record { addresses = second; sampling_rate_ms = 0 }
      ∷ [];
}

module _ {J : Type 0} (json : Json J) (codec : Codec J Address) where
  -- Two stages of addresses, of which the first has two or more and the second one or more. If call
  -- number m of `rand()` leads to an address of the first stage whose port is not the last one of
  -- the second, and no call up to it leads behind the end, then with fuel above m the prediction is
  -- an address with another port than the last one.
  pub predict_random_nat_stops :
      (rand_max : ℕ) (rand : ℕ → ℕ) (f m : ℕ) (a b c : Address) (xs cs : List Address)
      → m < f
      → InRange rand_max rand (a ∷ b ∷ xs) (last_port c cs) (suc m)
      → Ends rand_max rand (a ∷ b ∷ xs) (last_port c cs) m
      → (p : Address) × (predict_random_nat json codec rand_max rand f
            (two_stages (a ∷ b ∷ xs) (c ∷ cs))
          ≡ predicted (create_data json codec p Transaction.no_transaction))
        × ((p.port == last_port c cs) ≡ false)
  unfolding predict_random_nat
  predict_random_nat_stops rand_max rand f m a b c xs cs h g e =
      let (p, d, o) = draw_stops rand_max rand (a ∷ b ∷ xs) (last_port c cs) f m h g e in
      (p, ap (of_draw json codec) d, o)

  of_draw_never :
      (d : Draw) (pkg : DataPackage J)
      → ((p : Address) → d ≢ drawn p)
      → of_draw json codec d ≢ predicted pkg
  of_draw_never (drawn p) pkg h = absurd (h p refl)
  of_draw_never drawing pkg h = λ e. cc e
  of_draw_never out_of_range pkg h = λ e. cc e

  -- Two stages of addresses, of which the first has two or more and the second one or more. If every
  -- address of the first stage has the last port of the second, there is no prediction, whatever
  -- the values of `rand()` are and however long the loop runs.
  pub predict_random_nat_never :
      (rand_max : ℕ) (rand : ℕ → ℕ) (f : ℕ) (a b c : Address) (xs cs : List Address)
      (pkg : DataPackage J)
      → All (λ p. (p.port == last_port c cs) ≡ true) (a ∷ b ∷ xs)
      → predict_random_nat json codec rand_max rand f (two_stages (a ∷ b ∷ xs) (c ∷ cs))
        ≢ predicted pkg
  unfolding predict_random_nat
  predict_random_nat_never rand_max rand f a b c xs cs pkg same =
      of_draw_never (draw rand_max rand (a ∷ b ∷ xs) (last_port c cs) f 0) pkg
        (λ p. draw_never rand_max rand (a ∷ b ∷ xs) (last_port c cs) f 0 p same)

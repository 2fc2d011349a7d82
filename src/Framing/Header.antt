-- ===== src/Framing/Header.antt =====
-- The header of a message is read back (Shared/Compression.h, ServerSource/src/Server/Session.cpp).
use native.Mathlib.Nat.{pow-suc}
use nat_data_collector.Prelude.{
  ℕ, zero, suc, ◌+◌, ◌-◌, ◌^◌, ◌≤◌, ◌<◌, ◌/◌, ◌%◌, ◌≡◌, refl, some, List, [], ◌∷◌, arith, length,
  Bool-cases, ltb, inl, inr, true, ap, ◌∙◌,
}
use nat_data_collector.Framing.{decimals, zeros, encode_msg_length, digits, stoi, is_digit}

digits-decimals : (f n : ℕ) (out : List ℕ) → n < f → digits 0 (decimals f n out) ≡ digits n out
unfolding digits decimals
digits-decimals zero n out h = elim h [ ]
digits-decimals (suc f) n out h = ground (arith, digits-decimals f (n / 10) ((b'0' + n % 10) ∷ out))

length-decimals :
    (f w n : ℕ) (out : List ℕ) → n < 10 ^ suc w → length (decimals f n out) ≤ suc w + length out
unfolding decimals
length-decimals zero w n out h = omega arith
length-decimals (suc f) zero n out h = ground arith
length-decimals (suc f) (suc w) n out h =
    ground (arith, length-decimals f w (n / 10) ((b'0' + n % 10) ∷ out), pow-suc 10 (suc w))

digits-zeros : (k : ℕ) (s : List ℕ) → digits 0 (zeros k s) ≡ digits 0 s
unfolding digits zeros
digits-zeros zero s = refl
digits-zeros (suc k) s = digits-zeros k s

length-zeros : (k : ℕ) (s : List ℕ) → length (zeros k s) ≡ k + length s
unfolding zeros
length-zeros zero s = omega arith
length-zeros (suc k) s = omega (arith, length-zeros k s)

-- The text begins with a digit.
abbrev Digits : List ℕ → Type 0
Digits s = (c : ℕ) × (t : List ℕ) × (s ≡ c ∷ t) × (is_digit c ≡ true)

decimals-Digits : (f n : ℕ) (out : List ℕ) → n < f → Digits (decimals f n out)
unfolding decimals
decimals-Digits zero n out h = elim h [ ]
decimals-Digits (suc f) n out h = elim (Bool-cases (ltb n 10)) [
  | inl last ↦ rw last (b'0' + n % 10, out, refl, ground arith)
  | inr more ↦ rw more (decimals-Digits f (n / 10) ((b'0' + n % 10) ∷ out) (ground arith))
]

zeros-Digits : (k : ℕ) (s : List ℕ) → Digits s → Digits (zeros k s)
unfolding zeros
zeros-Digits zero s d = d
zeros-Digits (suc k) s d = (b'0', zeros k s, refl, refl)

stoi-cons :
    (c : ℕ) (t : List ℕ)
    → is_digit c ≡ true
    → digits 0 (c ∷ t) < 2 ^ 31
    → stoi (c ∷ t) ≡ some (digits 0 (c ∷ t))
unfolding stoi
stoi-cons c t d h = ground arith

stoi-Digits : (s : List ℕ) → Digits s → digits 0 s < 2 ^ 31 → stoi s ≡ some (digits 0 s)
stoi-Digits s (c, t, e, d) h = rw e (stoi-cons c t d (rw e at h))

-- The header of a message shorter than 10⁹ bytes has nine characters, and is read back.
pub stoi-encode_msg_length :
    (n : ℕ)
    → n < 10 ^ 9
    → (length (encode_msg_length n) ≡ 9) × (stoi (encode_msg_length n) ≡ some n)
unfolding encode_msg_length digits
stoi-encode_msg_length n h =
    let s = decimals (suc n) n [] in
    let k = 9 - length s in
    let value : digits 0 (zeros k s) ≡ n =
      digits-zeros k s ∙ digits-decimals (suc n) n [] (omega arith) in
    (
      omega (arith, length-zeros k s, length-decimals (suc n) 8 n [] h),
      stoi-Digits (zeros k s) (zeros-Digits k s (decimals-Digits (suc n) n [] (omega arith)))
            (omega (arith, value))
          ∙ ap some value,
    )

-- ===== src/Classifier/Largest.antt =====
-- What `GetMostFrequentNatType` (AndroidSource/src/Components/NatClassifier.cpp) gives.
use mathlib.Core.Path.{subst}
use nat_data_collector.Prelude.{
  ℕ, ◌≡◌, ◌≢◌, ◌≤◌, ◌⊎◌, refl, if◌then◌else◌, List, [], ◌∷◌, arith, inl, inr, Bool-cases,
  Option-cases, All,
}
use nat_data_collector.Prelude.OrderedMap.{find, insert-All, insert-keys, insert-ne, find-All}
use nat_data_collector.Types.{NatType, nat_type_code}
use nat_data_collector.Classifier.{
  Counts, one_more, count_type, count_types, pair_less, max_element, type_of_max,
  get_most_frequent_nat_type,
}

-- The entry of a type stands under the type's number.
abbrev HasCode : (NatType → Type 0) → ℕ × (NatType × ℕ) → Type 0
HasCode Q (k, (t, n)) = (k ≡ nat_type_code t) × Q t

-- A type that a list has.
abbrev pub IsIn : NatType → List NatType → Type 0
IsIn t [] = ⊥
IsIn t (u ∷ us) = (t ≡ u) ⊎ IsIn t us

count_type-All :
    (Q : NatType → Type 0) (t : NatType) (m : Counts)
    → Q t
    → All (HasCode Q) m
    → All (HasCode Q) (count_type m t)
unfolding count_type
count_type-All Q t m q a = elim (Option-cases (find (nat_type_code t) m)) [
  | inl e ↦ insert-All (HasCode Q) (nat_type_code t) _ m (rw e (refl, q)) a
  | inr (x, e) ↦
      insert-All (HasCode Q) (nat_type_code t) _ m
        (rw e (find-All (HasCode Q) (nat_type_code t) x m a e)) a
]

count_types-All :
    (Q : NatType → Type 0) (ts : List NatType) (m : Counts)
    → All Q ts
    → All (HasCode Q) m
    → All (HasCode Q) (count_types m ts)
unfolding count_types
count_types-All Q [] m q a = a
count_types-All Q (t ∷ ts) m (q, qs) a =
    count_types-All Q ts (count_type m t) qs (count_type-All Q t m q a)

count_types-keys :
    (b : ℕ) (ts : List NatType) (m : Counts)
    → All (λ e. e.0 ≤ b) (count_types m ts)
    → All (λ t. nat_type_code t ≤ b) ts × All (λ e. e.0 ≤ b) m
unfolding count_types count_type
count_types-keys b [] m a = (tt, a)
count_types-keys b (t ∷ ts) m a =
    let (bs, c) = count_types-keys b ts (count_type m t) a in
    let (h, d) = insert-keys b (nat_type_code t) _ m c in ((h, bs), d)

abbrev larger : ℕ × (NatType × ℕ) → ℕ × (NatType × ℕ) → ℕ × (NatType × ℕ)
larger x y = if pair_less x y then y else x

larger_lem :
    (P : ℕ × (NatType × ℕ) → Type 0) (x y : ℕ × (NatType × ℕ))
    → P x
    → P y
    → P (larger x y) × (x.0 ≤ (larger x y).0) × (y.0 ≤ (larger x y).0)
larger_lem P x y p q = elim (Bool-cases (pair_less x y)) [
  | inl e ↦ rw e (q, ground arith, ground arith)
  | inr e ↦ rw e (p, ground arith, ground arith)
]

max_element_lem :
    (P : ℕ × (NatType × ℕ) → Type 0) (x : ℕ × (NatType × ℕ)) (m : Counts)
    → P x
    → All P m
    → P (max_element x m) × (x.0 ≤ (max_element x m).0) × All (λ e. e.0 ≤ (max_element x m).0) m
unfolding max_element
max_element_lem P x [] p a = (p, omega arith, tt)
max_element_lem P x (y ∷ m) p (q, a) =
    let (pz, hx, hy) = larger_lem P x y p q in
    let (r, h, b) = max_element_lem P (larger x y) m pz a in (r, omega arith, (omega arith, b))

-- The type of the largest entry stands under its number, and no other number is larger.
largest :
    (Q : NatType → Type 0) (m : Counts)
    → m ≢ []
    → All (HasCode Q) m
    → Q (type_of_max m) × All (λ e. e.0 ≤ nat_type_code (type_of_max m)) m
largest Q [] ne a = absurd (ne refl)
largest Q (x ∷ m) ne (p, a) =
    let (r, h, b) = max_element_lem (HasCode Q) x m p a in
    (r.1, subst (λ c. All (λ e. e.0 ≤ c) (x ∷ m)) r.0 (h, b))

All-IsIn :
    (us : List NatType) (ts : List NatType)
    → ((t : NatType) → IsIn t ts → IsIn t us)
    → All (λ t. IsIn t us) ts
All-IsIn us [] h = tt
All-IsIn us (t ∷ ts) h = (h t (inl refl), All-IsIn us ts (λ u i. h u (inr i)))

count_types-ne : (ts : List NatType) (m : Counts) → m ≢ [] → count_types m ts ≢ []
unfolding count_types count_type
count_types-ne [] m ne = ne
count_types-ne (t ∷ ts) m ne = count_types-ne ts (count_type m t) (insert-ne (nat_type_code t) _ m)

-- `GetMostFrequentNatType` gives one of the types that were seen, and the one with the largest
-- number of them, however often each was seen.
pub get_most_frequent_nat_type_lem :
    (t : NatType) (ts : List NatType)
    → let best = get_most_frequent_nat_type (t ∷ ts) in
      IsIn best (t ∷ ts) × All (λ u. nat_type_code u ≤ nat_type_code best) (t ∷ ts)
unfolding get_most_frequent_nat_type count_types count_type
get_most_frequent_nat_type_lem t ts =
    let m = count_types [] (t ∷ ts) in
    let (i, b) =
      largest (λ u. IsIn u (t ∷ ts)) m
        (count_types-ne ts (count_type [] t)
          (insert-ne (nat_type_code t) (one_more t (find (nat_type_code t) [])) []))
        (count_types-All (λ u. IsIn u (t ∷ ts)) (t ∷ ts) [] (All-IsIn (t ∷ ts) (t ∷ ts) (λ u i. i))
          tt) in
    (i, (count_types-keys (nat_type_code (type_of_max m)) (t ∷ ts) [] b).0)

-- ===== src/Prelude/OrderedMap.antt =====
-- `std::map` with a number (or the number of an enumerator) for a key: an association list whose
-- keys ascend, which is the order in which the program iterates.
use Prim.Native.Nat.{ℕ, suc, ◌≤◌, ◌<◌}
use mathlib.Core.Path.{◌≡◌, refl}
use mathlib.Core.Logic.{inl, inr}
use mathlib.Core.Bool.{Bool, true}
use mathlib.Core.List.{List, [], ◌∷◌}
use mathlib.Core.Option.{Option, none, some}
use native.Mathlib.Omega.{arith}
use nat_data_collector.Prelude.Tests.{ltb, ◌==◌, if◌then◌else◌, is_some, Bool-cases}
use nat_data_collector.Prelude.Lists.{All, length}

abbrev pub Map {ℓ} : Type ℓ → Type ℓ
Map V = List (ℕ × V)

module _ {ℓ} {V : Type ℓ} where
  unfoldable pub find : ℕ → Map V → Option V
  find k [] = none
  find k ((j, v) ∷ m) = if j == k then some v else find k m

  unfoldable pub contains : ℕ → Map V → Bool
  contains k m = is_some (find k m)

  -- `m[k] = v`.
  unfoldable pub insert : ℕ → V → Map V → Map V
  insert k v [] = (k, v) ∷ []
  insert k v ((j, w) ∷ m) =
      if ltb k j then (k, v) ∷ (j, w) ∷ m else if j == k then (k, v) ∷ m else (j, w) ∷ insert k v m

  unfoldable pub erase : ℕ → Map V → Map V
  erase k [] = []
  erase k ((j, w) ∷ m) = let rest = erase k m in if j == k then rest else (j, w) ∷ rest

  -- `std::erase_if`.
  unfoldable pub erase_if : (ℕ × V → Bool) → Map V → Map V
  erase_if p [] = []
  erase_if p (x ∷ m) = let rest = erase_if p m in if p x then rest else x ∷ rest

  -- `std::find_if` over the whole map.
  unfoldable pub find_if : (ℕ × V → Bool) → Map V → Option (ℕ × V)
  find_if p [] = none
  find_if p (x ∷ m) = if p x then some x else find_if p m

  -- The keys ascend from `lo` on.
  abbrev pub Above : ℕ → Map V → Type 0
  Above lo [] = Unit {0}
  Above lo ((j, v) ∷ m) = (lo ≤ j) × Above (suc j) m

  abbrev pub IsSorted : Map V → Type 0
  IsSorted m = Above 0 m

  pub find-insert :
      (i k : ℕ) (v : V) (m : Map V) → find i (insert k v m) ≡ (if k == i then some v else find i m)
  unfolding find insert
  find-insert i k v [] = refl
  find-insert i k v ((j, w) ∷ m) = ground (arith, find-insert i k v m)

  pub insert-insert : (k : ℕ) (v w : V) (m : Map V) → insert k v (insert k w m) ≡ insert k v m
  unfolding insert
  insert-insert k v w [] = ground arith
  insert-insert k v w ((j, u) ∷ m) = ground (arith, insert-insert k v w m)

  pub insert-ne : (k : ℕ) (v : V) (m : Map V) → insert k v m ≡ [] → ⊥
  unfolding insert
  insert-ne k v [] h = cc h
  insert-ne k v ((j, w) ∷ m) h = elim (Bool-cases (ltb k j)) [
    | inl e ↦ cc (rw e at h)
    | inr e ↦ elim (Bool-cases (j == k)) [
      | inl f ↦ cc (rw (e, f) at h)
      | inr f ↦ cc (rw (e, f) at h)
    ]
  ]

  pub insert-keys :
      (b k : ℕ) (v : V) (m : Map V)
      → All (λ e. e.0 ≤ b) (insert k v m)
      → (k ≤ b) × All (λ e. e.0 ≤ b) m
  unfolding insert
  insert-keys b k v [] a = a
  insert-keys b k v ((j, w) ∷ m) a = ground (arith, insert-keys b k v m)

  pub find-erase : (i k : ℕ) (m : Map V) → find i (erase k m) ≡ (if k == i then none else find i m)
  unfolding find erase
  find-erase i k [] = ground arith
  find-erase i k ((j, w) ∷ m) = ground (arith, find-erase i k m)

  pub Above-mono : (lo hi : ℕ) (m : Map V) → lo ≤ hi → Above hi m → Above lo m
  Above-mono lo hi [] h a = tt
  Above-mono lo hi ((j, v) ∷ m) h a = (omega arith, a.1)

  pub insert-Above : (lo k : ℕ) (v : V) (m : Map V) → lo ≤ k → Above lo m → Above lo (insert k v m)
  unfolding insert
  insert-Above lo k v [] h a = ground arith
  insert-Above lo k v ((j, w) ∷ m) h a = ground (arith, insert-Above (suc j) k v m)

  pub erase-Above : (lo k : ℕ) (m : Map V) → Above lo m → Above lo (erase k m)
  unfolding erase
  erase-Above lo k [] a = tt
  erase-Above lo k ((j, w) ∷ m) a =
      ground (arith, erase-Above (suc j) k m, Above-mono lo (suc j) (erase k m))

  pub erase_if-Above :
      (lo : ℕ) (p : ℕ × V → Bool) (m : Map V) → Above lo m → Above lo (erase_if p m)
  unfolding erase_if
  erase_if-Above lo p [] a = tt
  erase_if-Above lo p ((j, w) ∷ m) a =
      ground (arith, erase_if-Above (suc j) p m, Above-mono lo (suc j) (erase_if p m))

  pub find-Above : (lo k : ℕ) (m : Map V) → k < lo → Above lo m → find k m ≡ none
  unfolding find
  find-Above lo k [] h a = refl
  find-Above lo k ((j, v) ∷ m) h a = ground (arith, find-Above (suc j) k m)

abbrev pub keep_unless {ℓ} : {V : Type ℓ} → (ℕ × V → Bool) → ℕ → Option V → Option V
keep_unless p k none = none
keep_unless p k (some v) = if p (k, v) then none else some v

module _ {ℓ} {V : Type ℓ} where
  -- `erase_if` keeps exactly the entries that fail the test.
  pub find-erase_if :
      (lo k : ℕ) (p : ℕ × V → Bool) (m : Map V)
      → Above lo m
      → find k (erase_if p m) ≡ keep_unless p k (find k m)
  unfolding find erase_if
  find-erase_if lo k p [] a = refl
  find-erase_if lo k p ((j, v) ∷ m) a = elim (Bool-cases (j == k)) [
    | inl e ↦ ground (arith, find-erase_if (suc j) k p m a.1, find-Above (suc j) k m)
    | inr e ↦ ground (arith, find-erase_if (suc j) k p m a.1)
  ]

  pub length-erase_if-le : (p : ℕ × V → Bool) (m : Map V) → length (erase_if p m) ≤ length m
  unfolding erase_if
  length-erase_if-le p [] = omega arith
  length-erase_if-le p (x ∷ m) = ground (arith, length-erase_if-le p m)

  -- An `erase_if` that erases nothing leaves the map as it is.
  pub erase_if_id :
      (p : ℕ × V → Bool) (m : Map V) → length (erase_if p m) ≡ length m → erase_if p m ≡ m
  unfolding erase_if
  erase_if_id p [] h = refl
  erase_if_id p (x ∷ m) h = ground (arith, erase_if_id p m, length-erase_if-le p m)

  -- What holds of the entries is kept by each operation.
  pub insert-All {κ} :
      (P : ℕ × V → Type κ) (k : ℕ) (v : V) (m : Map V) → P (k, v) → All P m → All P (insert k v m)
  unfolding insert
  insert-All P k v [] h a = (h, tt)
  insert-All P k v ((j, w) ∷ m) h a = ground (arith, insert-All P k v m)

  pub erase-All {κ} : (P : ℕ × V → Type κ) (k : ℕ) (m : Map V) → All P m → All P (erase k m)
  unfolding erase
  erase-All P k [] a = tt
  erase-All P k ((j, w) ∷ m) a = ground (arith, erase-All P k m)

  pub erase_if-All {κ} :
      (P : ℕ × V → Type κ) (p : ℕ × V → Bool) (m : Map V) → All P m → All P (erase_if p m)
  unfolding erase_if
  erase_if-All P p [] a = tt
  erase_if-All P p (x ∷ m) a = ground (arith, erase_if-All P p m)

  pub find-All {κ} :
      (P : ℕ × V → Type κ) (k : ℕ) (v : V) (m : Map V) → All P m → find k m ≡ some v → P (k, v)
  unfolding find
  find-All P k v [] a e = cc
  find-All P k v ((j, w) ∷ m) a e = ground (arith, find-All P k v m)

  pub find_if-All {κ} :
      (P : ℕ × V → Type κ) (p : ℕ × V → Bool) (x : ℕ × V) (m : Map V)
      → All P m
      → find_if p m ≡ some x
      → P x × (p x ≡ true)
  unfolding find_if
  find_if-All P p x [] a e = cc
  find_if-All P p x (y ∷ m) a e = ground (arith, find_if-All P p x m)

  -- An entry that is found first is found first in its new form, if that is still looked for.
  pub find_if-insert :
      (p : ℕ × V → Bool) (k : ℕ) (v w : V) (m : Map V)
      → find_if p m ≡ some (k, w)
      → p (k, v) ≡ true
      → find_if p (insert k v m) ≡ some (k, v)
  unfolding find_if insert
  find_if-insert p k v w [] e h = cc
  find_if-insert p k v w ((j, u) ∷ m) e h = elim (Bool-cases (p (j, u))) [
    | inl t ↦ let same : j ≡ k = cc (rw t at e) in ground (arith, same)
    | inr f ↦ ground (arith, find_if-insert p k v w m)
  ]

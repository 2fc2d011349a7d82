-- ===== src/Prelude/Tests.antt =====
-- Boolean tests on the native numbers, the conditional, and chains of optional values.
use Prim.Native.Nat.{ℕ, ◌≤◌, ◌<◌, compare, Ordering}
use mathlib.Core.Path.{◌≡◌, refl, subst}
use mathlib.Core.Logic.{◌↔◌, ◌⊎◌, inl, inr}
use mathlib.Core.Bool.{Bool, true, false}
use mathlib.Core.Option.{Option, none, some}
use native.Mathlib.Omega.{arith}

abbrev pub ltb : ℕ → ℕ → Bool
ltb a b = elim (compare a b) [ Ordering.lt ↦ true | _ ↦ false ]

abbrev pub leb : ℕ → ℕ → Bool
leb a b = elim (compare a b) [ Ordering.gt ↦ false | _ ↦ true ]

infix 50 ◌==◌
abbrev pub ◌==◌ : ℕ → ℕ → Bool
a == b = elim (compare a b) [ Ordering.eq ↦ true | _ ↦ false ]

infix 1 if◌then◌else◌
abbrev pub if◌then◌else◌ {ℓ} : {A : Type ℓ} → Bool → A → A → A
if true then x else y = x
if false then x else y = y

pub ltb→lt : (a b : ℕ) → ltb a b ≡ true → a < b
ltb→lt a b h = ground arith

pub lt→ltb : (a b : ℕ) → a < b → ltb a b ≡ true
lt→ltb a b h = ground arith

pub leb→le : (a b : ℕ) → leb a b ≡ true → a ≤ b
leb→le a b h = ground arith

pub le→leb : (a b : ℕ) → a ≤ b → leb a b ≡ true
le→leb a b h = ground arith

pub ==_iff : (a b : ℕ) → ((a == b) ≡ true) ↔ (a ≡ b)
==_iff a b = ground arith

pub ==_self : (a : ℕ) → (a == a) ≡ true
==_self a = ground arith

pub ruleset tests = (arith, ltb→lt, lt→ltb, leb→le, le→leb)

-- To split on a computed value and keep the equation.
pub Bool-cases : (b : Bool) → (b ≡ true) ⊎ (b ≡ false)
Bool-cases true = inl refl
Bool-cases false = inr refl

pub Option-cases {ℓ} : {A : Type ℓ} (o : Option A) → (o ≡ none) ⊎ ((a : A) × (o ≡ some a))
Option-cases none = inl refl
Option-cases (some a) = inr (a, refl)

abbrev pub is_some {ℓ} : {A : Type ℓ} → Option A → Bool
is_some none = false
is_some (some a) = true

infixl 5 ◌>>=◌
abbrev pub ◌>>=◌ {ℓ κ} : {A : Type ℓ} {B : Type κ} → Option A → (A → Option B) → Option B
none >>= f = none
some a >>= f = f a

-- What holds of every state that a call leaves behind, if it gives a result at all.
abbrev pub After {ℓ κ ι} : {A : Type ℓ} {B : Type κ} → (A → Type ι) → Option (A × B) → Type ι
After P none = Unit
After P (some (a, b)) = P a

pub After-bind {ℓ κ ι μ} :
    {A : Type ℓ} {B : Type κ} {X : Type μ} (P : A → Type ι) (m : Option X) (f : X → Option (A × B))
    → ((x : X) → After P (f x))
    → After P (m >>= f)
After-bind P none f h = tt
After-bind P (some x) f h = h x

-- A result that is there and has a property.
abbrev pub Gives {ℓ} : {A : Type ℓ} → (A → Type 0) → Option A → Type 0
Gives P none = ⊥
Gives P (some a) = P a

pub Gives-bind {ℓ μ} :
    {A : Type ℓ} {B : Type μ} {P : A → Type 0} (Q : B → Type 0) (m : Option A) (f : A → Option B)
    → Gives P m
    → ((a : A) → P a → Gives Q (f a))
    → Gives Q (m >>= f)
Gives-bind Q none f g h = absurd g
Gives-bind Q (some a) f g h = h a g

pub if-both {ℓ} :
    {A : Type ℓ} (P : A → Type 0) (b : Bool) (x y : A) → P x → P y → P (if b then x else y)
if-both P true x y p q = p
if-both P false x y p q = q

pub Gives-map {ℓ} :
    {A : Type ℓ} (P Q : A → Type 0) (m : Option A) → Gives P m → ((a : A) → P a → Q a) → Gives Q m
Gives-map P Q none g h = absurd g
Gives-map P Q (some a) g h = h a g

pub if-true {ℓ} : {A : Type ℓ} (b : Bool) (x y : A) → b ≡ true → (if b then x else y) ≡ x
if-true true x y e = refl
if-true false x y e = cc e

pub if-false {ℓ} : {A : Type ℓ} (b : Bool) (x y : A) → b ≡ false → (if b then x else y) ≡ y
if-false true x y e = cc e
if-false false x y e = refl

-- What holds of a result, if no exception leaves the function.
abbrev pub Whenever {ℓ} : {A : Type ℓ} → (A → Type 0) → Option A → Type 0
Whenever P none = Unit
Whenever P (some a) = P a

pub Whenever-bind {ℓ μ} :
    {A : Type ℓ} {B : Type μ} (P : A → Type 0) (m : Option B) (f : B → Option A)
    → ((b : B) → m ≡ some b → Whenever P (f b))
    → Whenever P (m >>= f)
Whenever-bind P none f h = tt
Whenever-bind P (some b) f h = h b refl

pub Whenever-step {ℓ} :
    {A : Type ℓ} (P : A → Type 0) (m : Option A) (f : A → Option A)
    → Whenever P m
    → ((a : A) → P a → Whenever P (f a))
    → Whenever P (m >>= f)
Whenever-step P none f g h = tt
Whenever-step P (some a) f g h = h a g

pub Whenever-at {ℓ} :
    {A : Type ℓ} (P : A → Type 0) (m : Option A) {a : A} → Whenever P m → m ≡ some a → P a
Whenever-at P none g e = cc e
Whenever-at P (some b) {a} g e = subst P (cc e) g

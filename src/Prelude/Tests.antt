-- ===== src/Prelude/Tests.antt =====
-- Boolean tests on the native numbers, the conditional, and equality as an interface.
use Prim.Native.Nat.{ℕ, compare, Ordering}
use mathlib.Core.Path.{◌≡◌, refl}
use mathlib.Core.Logic.{◌↔◌, ◌⊎◌, inl, inr}
use mathlib.Core.Bool.{Bool, true, false, ◌&&◌}
use mathlib.Core.Option.{Option, none, some}
use mathlib.Core.List.{List, [], ◌∷◌}
use native.Mathlib.Omega.{arith}

abbrev pub ltb : ℕ → ℕ → Bool
ltb a b = elim (compare a b) [ Ordering.lt ↦ true | _ ↦ false ]

abbrev pub leb : ℕ → ℕ → Bool
leb a b = elim (compare a b) [ Ordering.gt ↦ false | _ ↦ true ]

abbrev pub nat_beq : ℕ → ℕ → Bool
nat_beq a b = elim (compare a b) [ Ordering.eq ↦ true | _ ↦ false ]

infix 1 if◌then◌else◌
abbrev pub if◌then◌else◌ {ℓ} : {A : Type ℓ} → Bool → A → A → A
if true then x else y = x
if false then x else y = y

pub nat_beq_iff : (a b : ℕ) → (nat_beq a b ≡ true) ↔ (a ≡ b)
nat_beq_iff a b = ground arith

-- The tests `===` of a type: Boolean, and true exactly at equal values.
pub record Eq {ℓ} (Value : Type ℓ) : Type ℓ where
  pub same : Value → Value → Bool
  pub same_iff : (x y : Value) → (same x y ≡ true) ↔ (x ≡ y)

instance abbrev pub nat_eq : Eq ℕ
nat_eq = record { same_iff = nat_beq_iff; same = nat_beq }

infix 50 ◌==◌
abbrev pub ◌==◌ {ℓ} : {Value : Type ℓ} ⦃tests : Eq Value⦄ → Value → Value → Bool
◌==◌ ⦃tests = t⦄ x y = t.same x y

abbrev pub list_beq {ℓ} : {A : Type ℓ} → (A → A → Bool) → List A → List A → Bool
list_beq t [] [] = true
list_beq t (x ∷ xs) (y ∷ ys) = t x y && list_beq t xs ys
list_beq t _ _ = false

module _ {ℓ} {A : Type ℓ} (e : Eq A) where
  list_beq-eq : (xs ys : List A) → list_beq e.same xs ys ≡ true → xs ≡ ys
  list_beq-eq [] [] h = refl
  list_beq-eq [] (y ∷ ys) h = cc
  list_beq-eq (x ∷ xs) [] h = cc
  list_beq-eq (x ∷ xs) (y ∷ ys) h = ground (arith, list_beq-eq xs ys, e.same_iff x y)

  list_beq_self : (xs : List A) → list_beq e.same xs xs ≡ true
  list_beq_self [] = refl
  list_beq_self (x ∷ xs) = ground (arith, list_beq_self xs, e.same_iff x x)

  pub list_beq_iff : (xs ys : List A) → (list_beq e.same xs ys ≡ true) ↔ (xs ≡ ys)
  list_beq_iff xs ys = (list_beq-eq xs ys, λ p. rw (← p) (list_beq_self xs))

-- The two outcomes of a test.
pub Bool-cases : (test : Bool) → (test ≡ true) ⊎ (test ≡ false)
Bool-cases false = inr refl
Bool-cases true = inl refl

-- A value that may be missing.
pub Option-cases {ℓ} :
    {A : Type ℓ} (found : Option A) → (found ≡ none) ⊎ ((value : A) × (found ≡ some value))
Option-cases (some value) = inr (value, refl)
Option-cases none = inl refl

-- A property of both branches of a test.
pub if_each {ℓ κ} :
    {A : Type ℓ} (P : A → Type κ) (test : Bool) (one other : A)
    → (test ≡ true → P one)
    → (test ≡ false → P other)
    → P (if test then one else other)
if_each P true one other h k = h refl
if_each P false one other h k = k refl

-- ===== src/Prelude/Json/Decimals.antt =====
-- The decimal numeral of a number is read back as the number.
use Prim.Native.Nat.{ℕ, zero, suc, ◌+◌, ◌/◌, ◌%◌, ◌<◌}
use mathlib.Core.Path.{◌≡◌, refl, ◌∙◌, ap}
use mathlib.Core.Logic.{inl, inr}
use mathlib.Core.Bool.{true}
use mathlib.Core.List.{[], ◌∷◌}
use native.Mathlib.Omega.{arith}
use qq_bot_v.Prelude.Tests.{ltb, Bool-cases}
use qq_bot_v.Prelude.Strings.{Text, all_digits, is_positive_decimal}
use qq_bot_v.Prelude.Json.{decimal_from, decimal, decimal_value}

decimal_value-decimal_from :
    (fuel n : ℕ) (rest : Text)
    → n < fuel
    → decimal_value 0 (decimal_from fuel n rest) ≡ decimal_value n rest
unfolding decimal_from
decimal_value-decimal_from zero n rest h = omega arith
decimal_value-decimal_from (suc fuel) n rest h = elim (Bool-cases (ltb n 10)) [
  | inl one_digit ↦ rw (decimal_from, one_digit) (ap (λ k. decimal_value k rest) (omega arith))
  | inr more ↦
      rw (decimal_from, more)
        (decimal_value-decimal_from fuel (n / 10) ((48 + n % 10) ∷ rest) (ground (arith, more))
          ∙ ap (λ k. decimal_value k rest) (omega arith))
]

pub decimal_value-decimal : (n : ℕ) → decimal_value 0 (decimal n) ≡ n
unfolding decimal
decimal_value-decimal n = decimal_value-decimal_from (suc n) n [] (omega arith)

is_positive_decimal-decimal_from :
    (fuel n : ℕ) (rest : Text)
    → n < fuel
    → 0 < n
    → all_digits rest ≡ true
    → is_positive_decimal (decimal_from fuel n rest) ≡ true
unfolding decimal_from
is_positive_decimal-decimal_from zero n rest h pos digits =
    absurd (let bad : ⊥ = omega arith in bad)
is_positive_decimal-decimal_from (suc fuel) n rest h pos digits = elim (Bool-cases (ltb n 10)) [
  | inl one_digit ↦ rw (decimal_from, one_digit) (ground arith)
  | inr more ↦
      rw (decimal_from, more)
        (is_positive_decimal-decimal_from fuel (n / 10) ((48 + n % 10) ∷ rest)
          (ground (arith, more)) (ground (arith, more)) (ground arith))
]

pub is_positive_decimal-decimal : (n : ℕ) → 0 < n → is_positive_decimal (decimal n) ≡ true
unfolding decimal
is_positive_decimal-decimal n pos =
    is_positive_decimal-decimal_from (suc n) n [] (omega arith) pos refl

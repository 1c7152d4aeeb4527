-- ===== src/Prelude/Strings/Trimming.antt =====
-- A trimmed string stays as it is when it is trimmed again.
use mathlib.Core.Path.{◌≡◌, refl, sym, ap, ◌∙◌}
use mathlib.Core.Bool.{Bool, true, false}
use mathlib.Core.Logic.{inl, inr}
use mathlib.Core.List.{[], ◌∷◌, ◌++◌, reverse, reverse-reverse, reverse-append}
use qq_bot_v.Prelude.Tests.{Bool-cases}
use qq_bot_v.Prelude.Strings.{Text, is_space, trim_start, trim}

-- The first unit, if there is one, is no space.
abbrev clear_start : Text → Bool
clear_start [] = true
clear_start (c ∷ s) = elim (is_space c) [ true ↦ false | false ↦ true ]

trim_start-clear_start : (s : Text) → clear_start (trim_start s) ≡ true
trim_start-clear_start [] = refl
trim_start-clear_start (c ∷ s) = elim (Bool-cases (is_space c)) [
  | inl space ↦ rw (trim_start, space) (trim_start-clear_start s)
  | inr other ↦ rw (trim_start, other) (rw (clear_start, other) refl)
]

trim_start_self : (s : Text) → clear_start s ≡ true → trim_start s ≡ s
trim_start_self [] h = refl
trim_start_self (c ∷ s) h = elim (Bool-cases (is_space c)) [
  | inl space ↦
      absurd (let h' : false ≡ true = rw (clear_start, space) at h in let bad : ⊥ = cc in bad)
  | inr other ↦ rw (trim_start, other) refl
]

-- The spaces that are removed, and the rest.
trim_start_splits : (s : Text) → (spaces : Text) × (s ≡ spaces ++ trim_start s)
trim_start_splits [] = ([], refl)
trim_start_splits (c ∷ s) = elim (Bool-cases (is_space c)) [
  | inl space ↦
      let (spaces, e) = trim_start_splits s in
      (c ∷ spaces, rw (trim_start, space) (ap (λ t. c ∷ t) e))
  | inr other ↦ ([], rw (trim_start, other) refl)
]

clear_start_left : (s t : Text) → clear_start (s ++ t) ≡ true → clear_start s ≡ true
clear_start_left [] t h = refl
clear_start_left (c ∷ s) t h = h

abbrev trim_end : Text → Text
trim_end s = reverse (trim_start (reverse s))

trim_end-clear_start : (s : Text) → clear_start s ≡ true → clear_start (trim_end s) ≡ true
trim_end-clear_start s h =
    let (spaces, e) = trim_start_splits (reverse s) in
    clear_start_left (trim_end s) (reverse spaces) (
      ap clear_start (
        sym (reverse-append spaces (trim_start (reverse s)))
        ∙ ap reverse (sym e)
        ∙ reverse-reverse s)
      ∙ h)

pub trim_self : (s : Text) → trim (trim s) ≡ trim s
unfolding trim
trim_self s =
    let front = trim_start s in
    ap trim_end
      (trim_start_self (trim_end front) (trim_end-clear_start front (trim_start-clear_start s)))
    ∙ ap (λ t. reverse (trim_start t)) (reverse-reverse (trim_start (reverse front)))
    ∙ ap reverse
        (trim_start_self (trim_start (reverse front)) (trim_start-clear_start (reverse front)))

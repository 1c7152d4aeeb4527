-- ===== src/Compaction/Boundary/Search.antt =====
-- What the searches for a cut find.
use qq_bot_v.Prelude.{
  ℕ, zero, suc, ◌+◌, ◌≤◌, ◌<◌, ◌≡◌, refl, ap, ◌⊎◌, inl, inr, true, false, Option, none, some, List,
  [], ◌∷◌, arith, Bool-cases, length, drop,
}
use qq_bot_v.Compaction.Units.{AtomicUnit}
use qq_bot_v.Compaction.Boundary.{
  unit_tokens, tokens_at, is_user_unit, user_at, raw_boundary_from, last_user_below,
  first_user_from, first_choice,
}

pub first_choice-eq-some :
    (o up : Option ℕ) (i : ℕ)
    → first_choice o up ≡ some i
    → ((o ≡ some i) × (0 < i)) ⊎ (up ≡ some i)
first_choice-eq-some none up i h = inr h
first_choice-eq-some (some zero) up i h = inr h
first_choice-eq-some (some (suc k)) up i h = inl (h, ground arith)

pub first_choice-eq-none : (o up : Option ℕ) → first_choice o up ≡ none → up ≡ none
first_choice-eq-none none up h = h
first_choice-eq-none (some zero) up h = h
first_choice-eq-none (some (suc k)) up h = cc

module _ {T : Type 0} where
  unit_tokens-drop :
      (units : List (AtomicUnit T)) (i : ℕ)
      → unit_tokens (drop i units) ≡ tokens_at units i + unit_tokens (drop (suc i) units)
  unit_tokens-drop [] zero = omega arith
  unit_tokens-drop [] (suc i) = omega arith
  unit_tokens-drop (u ∷ us) zero = refl
  unit_tokens-drop (u ∷ us) (suc i) = unit_tokens-drop us i

  pub unit_tokens-drop-length :
      (units : List (AtomicUnit T)) → unit_tokens (drop (length units) units) ≡ 0
  unit_tokens-drop-length [] = refl
  unit_tokens-drop-length (u ∷ us) = unit_tokens-drop-length us

  -- The tail from the cut is worth `k` tokens, unless the cut is at the front.
  abbrev Reaches : List (AtomicUnit T) → ℕ → ℕ → Type 0
  Reaches units k r = (r ≡ 0) ⊎ (k ≤ unit_tokens (drop r units))

  pub raw_boundary_reached :
      (units : List (AtomicUnit T)) (k left tokens : ℕ)
      → tokens ≡ unit_tokens (drop left units)
      → Reaches units k (raw_boundary_from units k left tokens)
  unfolding raw_boundary_from
  raw_boundary_reached units k zero tokens e = inl refl
  raw_boundary_reached units k (suc i) tokens e =
      ground (
        arith,
        unit_tokens-drop units i,
        raw_boundary_reached units k i (tokens + tokens_at units i),
      )

  pub raw_boundary_largest :
      (units : List (AtomicUnit T)) (k left tokens j : ℕ)
      → tokens ≡ unit_tokens (drop left units)
      → raw_boundary_from units k left tokens < j
      → j < left
      → unit_tokens (drop j units) < k
  unfolding raw_boundary_from
  raw_boundary_largest units k zero tokens j e h below = absurd (omega arith)
  raw_boundary_largest units k (suc i) tokens j e h below = ground (
    arith,
    unit_tokens-drop units i,
    raw_boundary_largest units k i (tokens + tokens_at units i) j,
  )

  pub raw_boundary_from-lt :
      (units : List (AtomicUnit T)) (k left tokens : ℕ)
      → 0 < left
      → raw_boundary_from units k left tokens < left
  unfolding raw_boundary_from
  raw_boundary_from-lt units k zero tokens h = h
  raw_boundary_from-lt units k (suc zero) tokens h = ground arith
  raw_boundary_from-lt units k (suc (suc i)) tokens h =
      ground (arith, raw_boundary_from-lt units k (suc i) (tokens + tokens_at units (suc i)))

  pub last_user_below_found :
      (units : List (AtomicUnit T)) (left i : ℕ)
      → last_user_below units left ≡ some i
      → (user_at units i ≡ true) × (i < left)
  unfolding last_user_below
  last_user_below_found units zero i h = cc
  last_user_below_found units (suc left) i h = ground (arith, last_user_below_found units left i)

  pub first_user_from_found :
      (units : List (AtomicUnit T)) (index i : ℕ)
      → first_user_from units index ≡ some i
      → (j : ℕ) × (i ≡ index + j) × (user_at units j ≡ true)
  unfolding first_user_from
  first_user_from_found [] index i h = cc
  first_user_from_found (u ∷ us) index i h = elim (Bool-cases (is_user_unit u)) [
    | inl here ↦ (0, ground arith, here)
    | inr other ↦
        let (j, e, user) = first_user_from_found us (index + 1) i (ground arith) in
        (suc j, omega arith, user)
  ]

  pub first_user_from-none :
      (units : List (AtomicUnit T)) (index j : ℕ)
      → first_user_from units index ≡ none
      → user_at units j ≡ false
  unfolding first_user_from
  first_user_from-none [] index j h = refl
  first_user_from-none (u ∷ us) index zero h = ground arith
  first_user_from-none (u ∷ us) index (suc j) h =
      ground (arith, first_user_from-none us (index + 1) j)

  pub user_at-drop :
      (units : List (AtomicUnit T)) (n j : ℕ) → user_at (drop n units) j ≡ user_at units (n + j)
  user_at-drop units zero j = ap (user_at units) (let e : j ≡ 0 + j = omega arith in e)
  user_at-drop [] (suc n) j = refl
  user_at-drop (u ∷ us) (suc n) j =
      let e : suc n + j ≡ suc (n + j) = omega arith in rw e (user_at-drop us n j)

  pub user_at-lt : (units : List (AtomicUnit T)) (j : ℕ) → user_at units j ≡ true → j < length units
  user_at-lt [] j h = cc
  user_at-lt (u ∷ us) zero h = omega arith
  user_at-lt (u ∷ us) (suc j) h = omega (arith, user_at-lt us j h)

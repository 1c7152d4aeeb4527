-- ===== src/Compaction/Boundary/Laws.antt =====
-- What the chosen cut guarantees.
use qq_bot_v.Prelude.{
  ℕ, zero, suc, ◌+◌, ◌-◌, ◌≤◌, ◌<◌, ◌≡◌, refl, sym, ◌∙◌, ◌⊎◌, inl, inr, Bool, true, false, Option,
  none, some, List, arith, Bool-cases, Option-cases, ltb, length, drop,
}
use native.Mathlib.Decide.{dec_le}
use qq_bot_v.Compaction.Units.{AtomicUnit}
use qq_bot_v.Compaction.Boundary.{
  or_zero, unit_tokens, user_at, select_raw_boundary, last_user_below, find_latest_user_unit_index,
  find_preferred_user_boundary, preferred_unless, chosen_index, select_atomic_boundary,
}
use qq_bot_v.Compaction.Boundary.Search.{
  first_choice-eq-some, first_choice-eq-none, unit_tokens-drop-length, raw_boundary_reached,
  raw_boundary_largest, raw_boundary_from-lt, last_user_below_found, first_user_from_found,
  first_user_from-none, user_at-drop, user_at-lt,
}

module _ {T : Type 0} where
  largest_below :
      (units : List (AtomicUnit T)) (k : ℕ)
      → let r = select_raw_boundary units k in
        ((r ≡ 0) ⊎ (k ≤ unit_tokens (drop r units)))
        × ((j : ℕ) → r < j → j < length units → unit_tokens (drop j units) < k)
  unfolding select_raw_boundary
  largest_below units k = (
    raw_boundary_reached units k (length units) 0 (sym (unit_tokens-drop-length units)),
    λ j. raw_boundary_largest units k (length units) 0 j (sym (unit_tokens-drop-length units)),
  )

  -- The raw boundary is 0 or the units from it on reach the tokens to keep, and the units from any
  -- larger index on do not reach them.
  pub select_raw_boundary_largest :
      (units : List (AtomicUnit T)) (k : ℕ)
      → let r = select_raw_boundary units k in
        ((r ≡ 0) ⊎ (k ≤ unit_tokens (drop r units)))
        × ((j : ℕ) → (j ≤ r) ⊎ ((length units ≤ j) ⊎ (unit_tokens (drop j units) < k)))
  select_raw_boundary_largest units k = (
    (largest_below units k).0,
    λ j. elim (dec_le j (select_raw_boundary units k)) [
      | yes le ↦ inl le
      | no gt ↦ elim (dec_le (length units) j) [
        | yes out ↦ inr (inl out)
        | no inside ↦ inr (inr ((largest_below units k).1 j (omega arith) (omega arith)))
      ]
    ],
  )

  pub select_raw_boundary-lt :
      (units : List (AtomicUnit T)) (k : ℕ)
      → 0 < length units
      → select_raw_boundary units k < length units
  unfolding select_raw_boundary
  select_raw_boundary-lt units k h = raw_boundary_from-lt units k (length units) 0 h

  find_preferred_found :
      (units : List (AtomicUnit T)) (raw i : ℕ)
      → find_preferred_user_boundary units raw ≡ some i
      → (user_at units i ≡ true) × (0 < i)
  unfolding find_preferred_user_boundary
  find_preferred_found units raw i h =
      elim (first_choice-eq-some (last_user_below units (raw + 1)) _ i h) [
        | inl (e, pos) ↦ ((last_user_below_found units (raw + 1) i e).0, pos)
        | inr e ↦
            let (j, p, user) = first_user_from_found (drop (raw + 1) units) (raw + 1) i e in
            (rw p (sym (user_at-drop units (raw + 1) j) ∙ user), omega arith)
      ]

  find_preferred_none :
      (units : List (AtomicUnit T)) (raw j : ℕ)
      → find_preferred_user_boundary units raw ≡ none
      → raw < j
      → user_at units j ≡ false
  unfolding find_preferred_user_boundary
  find_preferred_none units raw j h lt =
      let up = first_choice-eq-none (last_user_below units (raw + 1)) _ h in
      let d = j - (raw + 1) in
      let p : j ≡ (raw + 1) + d = omega arith in
      rw p (sym (user_at-drop units (raw + 1) d) ∙ first_user_from-none _ (raw + 1) d up)

  latest_lt :
      (units : List (AtomicUnit T)) (i : ℕ)
      → find_latest_user_unit_index units ≡ some i
      → (user_at units i ≡ true) × (i < length units)
  unfolding find_latest_user_unit_index
  latest_lt units i h = last_user_below_found units (length units) i h

  -- What a cut leaves: it is in range, and it lies behind the start of the latest turn unless it
  -- falls on a user message.
  abbrev CutsTurn : List (AtomicUnit T) → Option ℕ → ℕ → Type 0
  CutsTurn units latest b = (user_at units b ≡ true) ⊎ (or_zero latest ≤ b)

  cuts_oversized :
      (units : List (AtomicUnit T)) (k i : ℕ)
      → i < length units
      → k < unit_tokens (drop i units)
      → i ≤ select_raw_boundary units k
  cuts_oversized units k i lt over = elim (dec_le i (select_raw_boundary units k)) [
    | yes le ↦ le
    | no gt ↦ absurd (let below = (largest_below units k).1 i (omega arith) lt in omega arith)
  ]

  cuts_preferred :
      (units : List (AtomicUnit T)) (raw : ℕ) (latest preferred : Option ℕ)
      → ((i : ℕ) → latest ≡ some i → user_at units i ≡ true)
      → find_preferred_user_boundary units raw ≡ preferred
      → CutsTurn units latest (chosen_index preferred raw)
  cuts_preferred units raw latest (some zero) user h =
      absurd (let (_, pos) = find_preferred_found units raw 0 h in omega arith)
  cuts_preferred units raw latest (some (suc i)) user h =
      inl (find_preferred_found units raw (suc i) h).0
  cuts_preferred units raw none none user h = inr (omega arith)
  cuts_preferred units raw (some i) none user h = elim (dec_le i raw) [
    | yes le ↦ inr le
    | no gt ↦
        absurd
          (let e = find_preferred_none units raw i h (omega arith) in let e' = user i refl in cc)
  ]

  cuts_selection :
      (units : List (AtomicUnit T)) (k : ℕ) (latest : Option ℕ)
      → find_latest_user_unit_index units ≡ latest
      → CutsTurn units latest (
          chosen_index
            (preferred_unless
              (ltb k (unit_tokens (drop (or_zero latest) units)))
              units
              (select_raw_boundary units k))
            (select_raw_boundary units k))
  cuts_selection units k none h = inr (omega arith)
  cuts_selection units k (some i) h = elim (Bool-cases (ltb k (unit_tokens (drop i units)))) [
    | inl over ↦ rw over (inr (cuts_oversized units k i (latest_lt units i h).1 (ground arith)))
    | inr small ↦ rw small (
        cuts_preferred units (select_raw_boundary units k) (some i)
          (find_preferred_user_boundary units (select_raw_boundary units k))
          (λ j e. (latest_lt units j (h ∙ e)).0) refl)
  ]

  chosen_lt :
      (units : List (AtomicUnit T)) (raw : ℕ) (test : Bool)
      → raw < length units
      → chosen_index (preferred_unless test units raw) raw < length units
  chosen_lt units raw true h = h
  chosen_lt units raw false h = elim (Option-cases (find_preferred_user_boundary units raw)) [
    | inl e ↦ rw e h
    | inr (zero, e) ↦ rw e h
    | inr (suc i, e) ↦ rw e (user_at-lt units (suc i) (find_preferred_found units raw (suc i) e).0)
  ]

  -- When there are units, the chosen cut is inside them, and it falls on a user unit or not
  -- before the start of the latest turn.
  pub select_atomic_boundary_cuts :
      (units : List (AtomicUnit T)) (k : ℕ)
      → 0 < length units
      → let s = select_atomic_boundary units k in
        (s.boundary_unit_index < length units)
        × ((user_at units s.boundary_unit_index ≡ true)
            ⊎ (or_zero s.latest_turn_start ≤ s.boundary_unit_index))
  unfolding select_atomic_boundary
  select_atomic_boundary_cuts units k h = (
    chosen_lt units (select_raw_boundary units k) _ (select_raw_boundary-lt units k h),
    cuts_selection units k (find_latest_user_unit_index units) refl,
  )

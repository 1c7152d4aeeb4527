-- ===== src/Compaction/Boundary.antt =====
-- The choice of the cut (src/agent/compaction.ts: selectAtomicBoundary, selectRawBoundary,
-- findPreferredUserBoundary, findLatestUserUnitIndex). The index -1 is `none`.
pub mod Search
pub mod Laws
use qq_bot_v.Prelude.{
  ℕ, zero, suc, ◌+◌, ◌-◌, Bool, true, false, Option, none, some, List, [], ◌∷◌, ltb, leb, length,
  drop, get_elem?, if◌then◌else◌,
}
use qq_bot_v.Ledger.Types.{Role, user_role}
use qq_bot_v.Compaction.Units.{AtomicUnit}

pub record BoundarySelection : Type 0 where
  pub boundary_unit_index : ℕ
  pub latest_turn_start : Option ℕ
  pub preferred_user_boundary : Option ℕ

abbrev pub or_zero : Option ℕ → ℕ
or_zero none = 0
or_zero (some n) = n

abbrev pub first_choice : Option ℕ → Option ℕ → Option ℕ
first_choice (some (suc index)) up = some (suc index)
first_choice _ up = up

abbrev pub chosen_index : Option ℕ → ℕ → ℕ
chosen_index (some (suc index)) raw = suc index
chosen_index _ raw = raw

module _ {T : Type 0} where
  abbrev pub unit_tokens : List (AtomicUnit T) → ℕ
  unit_tokens [] = 0
  unit_tokens (u ∷ us) = u.tokens + unit_tokens us

  abbrev tokens_at : List (AtomicUnit T) → ℕ → ℕ
  tokens_at [] i = 0
  tokens_at (u ∷ us) zero = u.tokens
  tokens_at (u ∷ us) (suc i) = tokens_at us i

  abbrev pub is_user_unit : AtomicUnit T → Bool
  is_user_unit u = elim u.first_role [ user_role ↦ true | _ ↦ false ]

  abbrev pub user_at : List (AtomicUnit T) → ℕ → Bool
  user_at [] i = false
  user_at (u ∷ us) zero = is_user_unit u
  user_at (u ∷ us) (suc i) = user_at us i

  -- The loop over `index` from `left - 1` down, with the tokens added so far.
  pub raw_boundary_from : List (AtomicUnit T) → ℕ → ℕ → ℕ → ℕ
  raw_boundary_from units keep_recent_tokens zero tokens = 0
  raw_boundary_from units keep_recent_tokens (suc index) tokens =
      let tokens' = tokens + tokens_at units index in
      elim (leb keep_recent_tokens tokens') [
        | true ↦ index
        | false ↦ raw_boundary_from units keep_recent_tokens index tokens'
      ]

  unfoldable pub select_raw_boundary : List (AtomicUnit T) → ℕ → ℕ
  unfolding raw_boundary_from
  select_raw_boundary units keep_recent_tokens =
      raw_boundary_from units keep_recent_tokens (length units) 0

  -- The last user unit below `left`.
  pub last_user_below : List (AtomicUnit T) → ℕ → Option ℕ
  last_user_below units zero = none
  last_user_below units (suc index) = elim (user_at units index) [
    | true ↦ some index
    | false ↦ last_user_below units index
  ]

  unfoldable pub find_latest_user_unit_index : List (AtomicUnit T) → Option ℕ
  unfolding last_user_below
  find_latest_user_unit_index units = last_user_below units (length units)

  -- The first user unit of `units`, whose first index is `index`.
  pub first_user_from : List (AtomicUnit T) → ℕ → Option ℕ
  first_user_from [] index = none
  first_user_from (u ∷ us) index = elim (is_user_unit u) [
    | true ↦ some index
    | false ↦ first_user_from us (index + 1)
  ]

  -- The two loops of `findPreferredUserBoundary`: down from the raw boundary, where a user unit at
  -- index 0 only breaks, and then up behind it.
  unfoldable pub find_preferred_user_boundary : List (AtomicUnit T) → ℕ → Option ℕ
  unfolding last_user_below first_user_from
  find_preferred_user_boundary units raw =
      first_choice (last_user_below units (raw + 1))
        (first_user_from (drop (raw + 1) units) (raw + 1))

  abbrev preferred_unless : Bool → List (AtomicUnit T) → ℕ → Option ℕ
  preferred_unless true units raw = none
  preferred_unless false units raw = find_preferred_user_boundary units raw

  unfoldable pub select_atomic_boundary : List (AtomicUnit T) → ℕ → BoundarySelection
  select_atomic_boundary units keep_recent_tokens =
      let raw = select_raw_boundary units keep_recent_tokens in
      let latest = find_latest_user_unit_index units in
      let latest_turn_tokens = unit_tokens (drop (or_zero latest) units) in
      let preferred = preferred_unless (ltb keep_recent_tokens latest_turn_tokens) units raw in
      record {
        boundary_unit_index = chosen_index preferred raw;
        latest_turn_start = latest;
        preferred_user_boundary = preferred;
      }

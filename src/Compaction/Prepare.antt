-- ===== src/Compaction/Prepare.antt =====
-- The deterministic preparation of a compaction (src/agent/compaction.ts: prepareCompaction,
-- validatePreparationNumbers). `get_tokens` is the estimate of a message entry.
pub mod Cut
pub mod Parts
pub mod Laws
use qq_bot_v.Prelude.{
  ℕ, zero, suc, ◌+◌, ◌-◌, Bool, true, false, ◌&&◌, ◌||◌, not, Option, none, some, List, [], ◌∷◌,
  ltb, leb, ◌==◌, nat_eq, length, take, drop, any, last?, if◌then◌else◌, Result, ok, err, ◌>>=◌,
  ◌>>◌, guard,
}
use qq_bot_v.Prelude.Values.{max_safe_integer}
use qq_bot_v.Ledger.Types.{
  MessageEntry, CompactionEntry, CompactionReason, threshold, overflow, behavioral_reset, Entry,
  entry_id, role, user_role,
}
use qq_bot_v.Ledger.Active.{
  option_beq, compaction_id, find_latest_compaction, select_active_message_entries,
}
use qq_bot_v.Compaction.Units.{AtomicUnit, build_atomic_units}
use qq_bot_v.Compaction.Units.Laws.{flatten}
use qq_bot_v.Compaction.Boundary.{BoundarySelection, or_zero, unit_tokens, select_atomic_boundary}

pub record PrepareInput : Type 0 where
  pub entries : List Entry
  pub through_entry_id : Option ℕ
  pub previous_compaction : Option CompactionEntry
  pub context_tokens : ℕ
  pub context_window_tokens : ℕ
  pub reserve_tokens : ℕ
  pub keep_recent_tokens : ℕ
  pub reason : CompactionReason

pub data CannotReason : Type 0 where
  no_legal_cut invalid_atomic_history stale_projection : CannotReason

pub record Ready : Type 0 where
  pub reason : CompactionReason
  pub expected_head_entry_id : Option ℕ
  pub first_kept_entry_id : Option ℕ
  pub entries_to_summarize : List MessageEntry
  pub history_entries : List MessageEntry
  pub split_turn_prefix_entries : List MessageEntry
  pub tail_entries : List MessageEntry
  pub is_split_turn : Bool
  pub tokens_before : ℕ
  pub estimated_tail_tokens : ℕ
  pub previous_compaction : Option CompactionEntry

-- `not_needed` is the result `null`.
pub data Preparation : Type 0 where
  not_needed : Preparation
  cannot_compact : CannotReason → Option ℕ → Preparation
  ready : Ready → Preparation

pub data RangeError : Type 0 where
  not_a_safe_integer window_is_zero : RangeError

validate_preparation_numbers : PrepareInput → Result RangeError (Unit {0})
validate_preparation_numbers i = do
  guard (leb i.context_tokens max_safe_integer) not_a_safe_integer
  guard (leb i.context_window_tokens max_safe_integer) not_a_safe_integer
  guard (leb i.reserve_tokens max_safe_integer) not_a_safe_integer
  guard (leb i.keep_recent_tokens max_safe_integer) not_a_safe_integer
  guard (ltb 0 i.context_window_tokens) window_is_zero

abbrev pub is_threshold : CompactionReason → Bool
is_threshold threshold = true
is_threshold _ = false

abbrev pub head_id : List Entry → Option ℕ
head_id es = elim (last? es) [ none ↦ none | some e ↦ some (entry_id e) ]

abbrev pub or_else : Option CompactionEntry → Option CompactionEntry → Option CompactionEntry
or_else none d = d
or_else (some c) d = some c

-- The given previous compaction is another than the last of the ledger, or not in it.
abbrev is_stale : List Entry → Option CompactionEntry → Bool
is_stale es none = false
is_stale es (some c) =
    not (option_beq (compaction_id (find_latest_compaction es)) (some c.id))
    || not (any (λ e. entry_id e == c.id) es)

abbrev is_user_entry : MessageEntry → Bool
is_user_entry m = elim (role m.message) [ user_role ↦ true | _ ↦ false ]

abbrev ltb_latest : Option ℕ → ℕ → Bool
ltb_latest none b = true
ltb_latest (some latest) b = ltb latest b

abbrev is_not_positive : Option ℕ → Bool
is_not_positive (some (suc i)) = false
is_not_positive _ = true

module _ (i : PrepareInput) (previous : Option CompactionEntry) where
  abbrev refuse : CannotReason → Preparation
  refuse reason = cannot_compact reason i.through_entry_id

  -- The result for a cut at `s`, with the entries before it and from it on.
  unfoldable pub cut_with :
      List (AtomicUnit MessageEntry)
      → BoundarySelection
      → List MessageEntry
      → List MessageEntry
      → Preparation
  cut_with units s [] tail = refuse no_legal_cut
  cut_with units s (e ∷ es) [] = refuse no_legal_cut
  cut_with units s (e ∷ es) (first_kept ∷ tail) =
      let split =
        not (is_user_entry first_kept)
        && (ltb_latest s.latest_turn_start s.boundary_unit_index
            || is_not_positive s.preferred_user_boundary) in
      let start = if split then or_zero s.latest_turn_start else s.boundary_unit_index in
      ready (record {
        reason = i.reason;
        expected_head_entry_id = i.through_entry_id;
        first_kept_entry_id = some first_kept.id;
        entries_to_summarize = e ∷ es;
        history_entries = flatten (take start units);
        split_turn_prefix_entries =
            if split then flatten (drop start (take s.boundary_unit_index units)) else [];
        tail_entries = first_kept ∷ tail;
        is_split_turn = split;
        tokens_before = i.context_tokens;
        estimated_tail_tokens = unit_tokens (drop s.boundary_unit_index units);
        previous_compaction = previous;
      })

  unfoldable pub prepare_cut : List (AtomicUnit MessageEntry) → Preparation
  prepare_cut units =
      let s = select_atomic_boundary units i.keep_recent_tokens in
      let b = s.boundary_unit_index in
      if ltb (length units) 2 || (b == 0 || leb (length units) b)
      then refuse no_legal_cut
      else cut_with units s (flatten (take b units)) (flatten (drop b units))

  -- `behavioral_reset` summarises all.
  unfoldable pub prepare_reset : List (AtomicUnit MessageEntry) → Preparation
  prepare_reset [] = refuse no_legal_cut
  prepare_reset (u ∷ us) = ready (record {
    reason = i.reason;
    expected_head_entry_id = i.through_entry_id;
    first_kept_entry_id = none;
    entries_to_summarize = flatten (u ∷ us);
    history_entries = flatten (u ∷ us);
    split_turn_prefix_entries = [];
    tail_entries = [];
    is_split_turn = false;
    tokens_before = i.context_tokens;
    estimated_tail_tokens = 0;
    previous_compaction = previous;
  })

  unfoldable pub prepare_units : Option (List (AtomicUnit MessageEntry)) → Preparation
  prepare_units none = refuse invalid_atomic_history
  prepare_units (some units) = elim i.reason [
    | behavioral_reset ↦ prepare_reset units
    | _ ↦ prepare_cut units
  ]

module _ (get_tokens : MessageEntry → ℕ) where
  unfoldable pub prepare_checked : PrepareInput → Preparation
  prepare_checked i =
      let previous = or_else i.previous_compaction (find_latest_compaction i.entries) in
      if is_threshold i.reason && leb i.context_tokens (i.context_window_tokens - i.reserve_tokens)
      then not_needed
      else if not (option_beq (head_id i.entries) i.through_entry_id)
          || is_stale i.entries i.previous_compaction
      then cannot_compact stale_projection i.through_entry_id
      else prepare_units i previous (
          build_atomic_units (λ m. m.message) get_tokens
            (select_active_message_entries i.entries previous))

  unfoldable pub prepare_compaction : PrepareInput → Result RangeError Preparation
  unfolding validate_preparation_numbers prepare_checked
  prepare_compaction i = validate_preparation_numbers i >> ok (prepare_checked i)

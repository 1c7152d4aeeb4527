-- ===== src/Examples/Compaction.antt =====
-- The theorems on compaction at the same history.
use qq_bot_v.Prelude.{
  ℕ, ◌≡◌, ◌<◌, ◌≤◌, refl, ◌⊎◌, true, some, List, [], ◌∷◌, ◌++◌, text, arith, All, ok, length, drop,
  text_beq,
}
use qq_bot_v.Ledger.Types.{plain, MessageEntry, compaction_entry, user_role, assistant_role}
use qq_bot_v.Ledger.Active.{
  validate_compaction_chain, find_latest_compaction, select_active_messages,
  select_active_message_entries,
}
use qq_bot_v.Compaction.Units.{AtomicUnit, build_atomic_units}
use qq_bot_v.Compaction.Units.Laws.{
  flatten, IsAtomic, build_atomic_units_sound, build_atomic_units_complete,
}
use qq_bot_v.Compaction.Boundary.{
  unit_tokens, user_at, or_zero, select_raw_boundary, select_atomic_boundary,
}
use qq_bot_v.Compaction.Boundary.Laws.{select_raw_boundary_largest, select_atomic_boundary_cuts}
use qq_bot_v.Compaction.Prepare.{prepare_compaction, prepare_units, prepare_cut, cut_with}
use qq_bot_v.Compaction.Prepare.Parts.{Divides}
use qq_bot_v.Compaction.Prepare.Laws.{active_of, prepare_compaction-Divides}
use qq_bot_v.Prelude.Values.{max_safe_integer}
use qq_bot_v.Compaction.Tokens.{safe_add, provider_prefix, estimate_ledger_context_tokens}
use qq_bot_v.Compaction.Tokens.Laws.{estimate_ledger_context_tokens-safe}
use qq_bot_v.Compaction.Commit.{candidate_entry}
use qq_bot_v.Compaction.Commit.Selection.{
  candidate-select_active_messages, candidate-validate_compaction_chain,
}
use qq_bot_v.Examples.{
  hello, asks, answer, entry, first_entries, message_tokens, input, prepared, candidate,
}

abbrev unit_hello : ℕ → AtomicUnit MessageEntry
unit_hello id = record { items = entry id hello ∷ []; first_role = user_role; tokens = 5 }

abbrev unit_asks : AtomicUnit MessageEntry
unit_asks = record {
  items = entry 2 asks ∷ entry 3 answer ∷ [];
  first_role = assistant_role;
  tokens = 10;
}

abbrev units : List (AtomicUnit MessageEntry)
units = unit_hello 1 ∷ unit_asks ∷ unit_hello 4 ∷ []

build_atomic_units_sound_example :
    All (IsAtomic (λ m. m.message) message_tokens) units
    × (flatten units ≡ entry 1 hello ∷ entry 2 asks ∷ entry 3 answer ∷ entry 4 hello ∷ [])
unfolding build_atomic_units text_beq
build_atomic_units_sound_example =
    build_atomic_units_sound (λ m. m.message) message_tokens
      (entry 1 hello ∷ entry 2 asks ∷ entry 3 answer ∷ entry 4 hello ∷ []) units refl

build_atomic_units_complete_example :
    build_atomic_units (λ m. m.message) message_tokens (flatten units) ≡ some units
unfolding text_beq
build_atomic_units_complete_example =
    build_atomic_units_complete (λ m. m.message) message_tokens units
      (
        (entry 1 hello, [], refl, refl),
        (
          (entry 2 asks, entry 3 answer ∷ [], refl, ((plain (text "ok"), refl), tt)),
          ((entry 4 hello, [], refl, refl), tt),
        ),
      )

select_raw_boundary_largest_example :
    ((select_raw_boundary units 5 ≡ 0)
      ⊎ (5 ≤ unit_tokens (drop (select_raw_boundary units 5) units)))
    × ((j : ℕ)
        → (j ≤ select_raw_boundary units 5)
          ⊎ ((length units ≤ j) ⊎ (unit_tokens (drop j units) < 5)))
select_raw_boundary_largest_example = select_raw_boundary_largest units 5

select_atomic_boundary_cuts_example :
    ((select_atomic_boundary units 5).boundary_unit_index < length units)
    × ((user_at units (select_atomic_boundary units 5).boundary_unit_index ≡ true)
        ⊎ (or_zero (select_atomic_boundary units 5).latest_turn_start
            ≤ (select_atomic_boundary units 5).boundary_unit_index))
select_atomic_boundary_cuts_example = select_atomic_boundary_cuts units 5 (omega arith)

prepare_compaction-Divides_example : Divides message_tokens (active_of input) prepared
unfolding prepare_compaction text_beq prepare_units build_atomic_units select_active_message_entries
    find_latest_compaction prepare_cut select_atomic_boundary
    qq_bot_v.Compaction.Boundary.find_latest_user_unit_index
    qq_bot_v.Compaction.Boundary.find_preferred_user_boundary select_raw_boundary cut_with
prepare_compaction-Divides_example = prepare_compaction-Divides message_tokens input prepared refl

candidate-select_active_messages_example :
    select_active_messages (first_entries ++ compaction_entry candidate ∷ []) (some candidate)
    ≡ ok (hello ∷ [])
unfolding prepare_compaction candidate_entry text_beq prepare_units build_atomic_units
    select_active_message_entries find_latest_compaction prepare_cut select_atomic_boundary
    qq_bot_v.Compaction.Boundary.find_latest_user_unit_index
    qq_bot_v.Compaction.Boundary.find_preferred_user_boundary select_raw_boundary cut_with safe_add
candidate-select_active_messages_example =
    candidate-select_active_messages message_tokens input prepared (text "s") 1 [] (some 4)
      candidate (omega arith, (omega arith, (omega arith, (omega arith, tt)))) refl refl

candidate-validate_compaction_chain_example :
    validate_compaction_chain (first_entries ++ compaction_entry candidate ∷ [])
    ≡ ok (some candidate)
unfolding prepare_compaction candidate_entry text_beq validate_compaction_chain
    find_latest_compaction prepare_units build_atomic_units select_active_message_entries
    prepare_cut select_atomic_boundary qq_bot_v.Compaction.Boundary.find_latest_user_unit_index
    qq_bot_v.Compaction.Boundary.find_preferred_user_boundary select_raw_boundary cut_with safe_add
candidate-validate_compaction_chain_example =
    candidate-validate_compaction_chain message_tokens input prepared (text "s") 1 [] (some 4)
      candidate refl refl refl

estimate_ledger_context_tokens-safe_example : (38 ≤ max_safe_integer) × (28 ≤ 38)
unfolding estimate_ledger_context_tokens safe_add qq_bot_v.Compaction.Tokens.estimate_utf8_tokens
    qq_bot_v.Compaction.Tokens.utf8_length
estimate_ledger_context_tokens-safe_example =
    estimate_ledger_context_tokens-safe (λ m. []) (λ c. []) first_entries (some (some 3, 28))
      (record { tokens = 38; source = provider_prefix; estimated_entry_ids = 4 ∷ [] }) refl

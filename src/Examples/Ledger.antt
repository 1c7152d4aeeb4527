-- ===== src/Examples/Ledger.antt =====
-- The theorems on the ledger at a history with a tool call.
use qq_bot_v.Prelude.{
  ℕ, ◌≡◌, refl, ◌↔◌, arith, none, some, List, [], ◌∷◌, ◌++◌, ok, is_blank, text_beq,
}
use qq_bot_v.Ledger.Types.{MessageEntry, Message}
use qq_bot_v.Ledger.Active.{
  assert_strictly_increasing_ids, validate_compaction_chain, select_active_messages,
}
use qq_bot_v.Ledger.Order.{Ascends, assert_strictly_increasing_ids_iff}
use qq_bot_v.Ledger.Integrity.{validate_messages}
use qq_bot_v.Ledger.Integrity.Laws.{validate_messages-units}
use qq_bot_v.Ledger.Project.{
  Projection, project_agent_ledger, assert_snapshot_integrity, synthetic_messages,
}
use qq_bot_v.Ledger.Runtime.{validate_runtime_state}
use qq_bot_v.Ledger.Growth.{project-append_message}
use qq_bot_v.Compaction.Units.{AtomicUnit, build_atomic_units}
use qq_bot_v.Examples.{hello, asks, answer, entry, first_entries, message_tokens, state_at, accepts}

assert_strictly_increasing_ids_iff_example :
    (assert_strictly_increasing_ids first_entries ≡ ok tt) ↔ Ascends 0 first_entries
assert_strictly_increasing_ids_iff_example =
    assert_strictly_increasing_ids_iff first_entries
      (omega arith, (omega arith, (omega arith, (omega arith, tt))))

validate_messages-units_example :
    (us : List (AtomicUnit MessageEntry)) × (build_atomic_units
        (λ m. m.message)
        message_tokens
        (entry 1 hello ∷ entry 2 asks ∷ entry 3 answer ∷ entry 4 hello ∷ [])
      ≡ some us)
unfolding validate_messages is_blank text_beq
validate_messages-units_example =
    validate_messages-units accepts (λ m. m.message) message_tokens
      (entry 1 hello ∷ entry 2 asks ∷ entry 3 answer ∷ entry 4 hello ∷ []) refl

abbrev projection_of : ℕ → List Message → Projection
projection_of n ms = record {
  through_entry_id = some n;
  active_entry_count = n;
  permanent_entry_count = n;
  messages = ms;
  conversation_focus = none;
}

project-append_message_example :
    (hello ∷ asks ∷ answer ∷ hello ∷ hello ∷ [])
    ≡ (hello ∷ asks ∷ answer ∷ hello ∷ []) ++ hello ∷ []
unfolding project_agent_ledger assert_strictly_increasing_ids assert_snapshot_integrity
    validate_messages is_blank text_beq validate_runtime_state validate_compaction_chain
    select_active_messages synthetic_messages
project-append_message_example =
    project-append_message accepts first_entries (entry 5 hello) (state_at 4) (state_at 5)
      (projection_of 4 (hello ∷ asks ∷ answer ∷ hello ∷ []))
      (projection_of 5 (hello ∷ asks ∷ answer ∷ hello ∷ hello ∷ []))
      (omega arith, (omega arith, (omega arith, (omega arith, (omega arith, tt))))) refl refl

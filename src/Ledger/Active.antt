-- ===== src/Ledger/Active.antt =====
-- The checks and selections of the projection (src/agent/agent-ledger-projection.ts:
-- assertStrictlyIncreasingIds, validateCompactionChain, selectActiveMessages), and the selection
-- of entries in src/agent/compaction.ts (findLatestCompaction, selectActiveMessageEntries).
use qq_bot_v.Prelude.{
  ℕ, ◌+◌, Bool, true, false, ◌||◌, Option, none, some, List, [], ◌∷◌, ltb, leb, ◌==◌, nat_eq, keep,
  find, map, Result, ok, err, ◌>>◌,
}
use qq_bot_v.Ledger.Types.{
  Message, tool, MessageEntry, CompactionEntry, Entry, message_entry, compaction_entry, entry_id,
  message_entries,
}

pub data LedgerError : Type 0 where
  ids_not_increasing : ℕ → LedgerError
  head_mismatch : Option ℕ → Option ℕ → LedgerError
  bad_previous_compaction : ℕ → Option ℕ → LedgerError
  boundary_missing boundary_not_message boundary_on_tool_result : ℕ → ℕ → LedgerError

-- The loop from index 1 on; the number before the list is the id of the entry before it.
unfoldable pub increasing_from : ℕ → ℕ → List Entry → Result LedgerError (Unit {0})
increasing_from index previous [] = ok tt
increasing_from index previous (e ∷ es) = elim (ltb previous (entry_id e)) [
  | true ↦ increasing_from (index + 1) (entry_id e) es
  | false ↦ err (ids_not_increasing index)
]

unfoldable pub assert_strictly_increasing_ids : List Entry → Result LedgerError (Unit {0})
unfolding increasing_from
assert_strictly_increasing_ids [] = ok tt
assert_strictly_increasing_ids (e ∷ es) = increasing_from 1 (entry_id e) es

abbrev pub option_beq : Option ℕ → Option ℕ → Bool
option_beq none none = true
option_beq (some a) (some b) = a == b
option_beq _ _ = false

abbrev pub compaction_id : Option CompactionEntry → Option ℕ
compaction_id none = none
compaction_id (some c) = some c.id

-- The loop of `validateCompactionChain`, from the compaction seen last.
unfoldable pub chain_from :
    Option CompactionEntry → List Entry → Result LedgerError (Option CompactionEntry)
chain_from previous [] = ok previous
chain_from previous (message_entry m ∷ es) = chain_from previous es
chain_from previous (compaction_entry c ∷ es) =
    elim (option_beq c.payload.previous_compaction_entry_id (compaction_id previous)) [
      | true ↦ chain_from (some c) es
      | false ↦ err (bad_previous_compaction c.id (compaction_id previous))
    ]

unfoldable pub validate_compaction_chain : List Entry → Result LedgerError (Option CompactionEntry)
unfolding chain_from
validate_compaction_chain es = chain_from none es

-- The last compaction entry of the list, or the one given.
abbrev latest_from : Option CompactionEntry → List Entry → Option CompactionEntry
latest_from latest [] = latest
latest_from latest (message_entry m ∷ es) = latest_from latest es
latest_from latest (compaction_entry c ∷ es) = latest_from (some c) es

-- `findLatestCompaction` walks from the end; the walk from the front keeps the last one it meets.
unfoldable pub find_latest_compaction : List Entry → Option CompactionEntry
find_latest_compaction es = latest_from none es

abbrev pub from_boundary : Option ℕ → ℕ → Bool
from_boundary none id = false
from_boundary (some b) id = leb b id

abbrev pub is_active : CompactionEntry → MessageEntry → Bool
is_active c m = ltb c.id m.id || from_boundary c.payload.first_kept_entry_id m.id

unfoldable pub select_active_message_entries :
    List Entry → Option CompactionEntry → List MessageEntry
select_active_message_entries es none = message_entries es
select_active_message_entries es (some c) = keep (is_active c) (message_entries es)

unfoldable pub check_boundary_entry : ℕ → ℕ → Option Entry → Result LedgerError (Unit {0})
check_boundary_entry c b none = err (boundary_missing c b)
check_boundary_entry c b (some (compaction_entry _)) = err (boundary_not_message c b)
check_boundary_entry c b (some (message_entry m)) = elim m.message [
  | tool _ _ ↦ err (boundary_on_tool_result c b)
  | _ ↦ ok tt
]

unfoldable pub check_boundary : ℕ → Option ℕ → List Entry → Result LedgerError (Unit {0})
unfolding check_boundary_entry
check_boundary c none es = ok tt
check_boundary c (some b) es = check_boundary_entry c b (find (λ e. entry_id e == b) es)

abbrev pub messages_of : List MessageEntry → List Message
messages_of ms = map (λ m. m.message) ms

unfoldable pub select_active_messages :
    List Entry → Option CompactionEntry → Result LedgerError (List Message)
unfolding check_boundary select_active_message_entries
select_active_messages es none = ok (messages_of (message_entries es))
select_active_messages es (some c) = do
  check_boundary c.id c.payload.first_kept_entry_id es
  ok (messages_of (keep (is_active c) (message_entries es)))

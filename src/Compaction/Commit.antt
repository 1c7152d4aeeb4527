-- ===== src/Compaction/Commit.antt =====
-- The compaction entry that a prepared compaction commits (src/agent/compaction.ts: the second half
-- of createCompactionCandidate), from a summary that has been validated, with its token count.
pub mod Ascending
pub mod Laws
pub mod Selection
use qq_bot_v.Prelude.{ℕ, ◌+◌, Option, none, some, List, Text, if◌then◌else◌}
use qq_bot_v.Prelude.Values.{after_epoch}
use qq_bot_v.Ledger.Types.{AttentionCursors, CompactionPayload, CompactionEntry}
use qq_bot_v.Ledger.Active.{option_beq, compaction_id}
use qq_bot_v.Compaction.Tokens.{safe_add}
use qq_bot_v.Compaction.Prepare.{Ready}

unfoldable pub candidate_payload :
    Ready → Text → ℕ → List (Text × AttentionCursors) → CompactionPayload
candidate_payload p summary summary_tokens attention = record {
  summary = summary;
  first_kept_entry_id = p.first_kept_entry_id;
  tokens_before = p.tokens_before;
  estimated_tokens_after = safe_add p.estimated_tail_tokens summary_tokens;
  reason = p.reason;
  is_split_turn = p.is_split_turn;
  previous_compaction_entry_id = compaction_id p.previous_compaction;
  mailbox_attention_state = attention;
}

unfoldable pub candidate_with_head :
    Ready → Text → ℕ → List (Text × AttentionCursors) → Option ℕ → Option ℕ → Option CompactionEntry
unfolding candidate_payload
candidate_with_head p summary summary_tokens attention runtime_head none = none
candidate_with_head p summary summary_tokens attention runtime_head (some head) =
    if option_beq runtime_head (some head)
    then some (record {
      id = head + 1;
      payload = candidate_payload p summary summary_tokens attention;
      created_at = after_epoch 0;
    })
    else none

-- `none` is the result `candidate_projection_invalid` for a head that is missing or has moved.
unfoldable pub candidate_entry :
    Ready → Text → ℕ → List (Text × AttentionCursors) → Option ℕ → Option CompactionEntry
unfolding candidate_with_head
candidate_entry p summary summary_tokens attention runtime_head =
    candidate_with_head p summary summary_tokens attention runtime_head p.expected_head_entry_id

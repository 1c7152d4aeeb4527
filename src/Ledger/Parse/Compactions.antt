-- ===== src/Ledger/Parse/Compactions.antt =====
-- Stored compactions (src/agent/agent-ledger-projection.ts: parseCompactionPayload,
-- parseMailboxAttentionState).
use qq_bot_v.Prelude.{
  Bool, ◌||◌, List, [], ◌∷◌, nat_eq, text_eq, Text, text, if◌then◌else◌, ok, ◌>>=◌, ◌>>◌,
}
use qq_bot_v.Prelude.Json.{sort_entries}
use qq_bot_v.Prelude.Values.{Value, Fields, end, field, prop, is_text}
use qq_bot_v.Mailbox.Keys.{is_mailbox_key}
use qq_bot_v.Ledger.Types.{
  CompactionReason, threshold, overflow, behavioral_reset, AttentionCursors, CompactionPayload,
}
use qq_bot_v.Ledger.Json.{
  Place, Parsed, reject, at_key, demand, demand_some, collect, unsupported_version, not_boolean,
  bad_reason, bad_mailbox_key, require_record, require_exact_keys, require_non_empty_string,
  require_non_negative_safe_integer, parse_nullable_entry_id,
}
use qq_bot_v.Ledger.Json.{member, member_when_present, is_version, as_boolean}

-- A stored `manual` is read as `threshold`.
abbrev pub parse_reason : Value → Place → Parsed CompactionReason
parse_reason value place =
    if is_text (text "threshold") value || is_text (text "manual") value
    then ok threshold
    else if is_text (text "overflow") value
    then ok overflow
    else if is_text (text "behavioral_reset") value
    then ok behavioral_reset
    else reject place bad_reason

abbrev pub require_boolean : Value → Place → Parsed Bool
require_boolean value place = demand_some (as_boolean value) place not_boolean

unfoldable pub parse_attention_cursors : Value → Place → Parsed AttentionCursors
parse_attention_cursors value place = do
  cursors ← require_record value place
  require_exact_keys cursors (text "disclosedThroughRowId" ∷ text "handledThroughRowId" ∷ [])
      (text "highPriorityThroughRowId" ∷ []) place
  disclosed ← member cursors place (text "disclosedThroughRowId") require_non_negative_safe_integer
  handled ← member cursors place (text "handledThroughRowId") require_non_negative_safe_integer
  high ←
      member_when_present cursors place (text "highPriorityThroughRowId")
        require_non_negative_safe_integer
  ok (record {
    disclosed_through_row_id = disclosed;
    handled_through_row_id = handled;
    high_priority_through_row_id = high;
  })

abbrev pub parse_mailbox : Text → Value → Place → Parsed AttentionCursors
parse_mailbox mailbox value place =
    demand (is_mailbox_key mailbox) (at_key place mailbox) bad_mailbox_key
    >> parse_attention_cursors value (at_key place mailbox)

abbrev pub parse_attention_mailboxes : Fields → Place → List (Text × Parsed AttentionCursors)
parse_attention_mailboxes end place = []
parse_attention_mailboxes (field k v fs) place =
    (k, parse_mailbox k v place) ∷ parse_attention_mailboxes fs place

-- The loop over the sorted keys: its first error is that of the first bad mailbox.
unfoldable pub parse_mailbox_attention_state :
    Value → Place → Parsed (List (Text × AttentionCursors))
parse_mailbox_attention_state value place =
    require_record value place >>= λ fs. collect (sort_entries (parse_attention_mailboxes fs place))

unfoldable pub parse_compaction_payload : Value → Place → Parsed CompactionPayload
unfolding parse_mailbox_attention_state
parse_compaction_payload value place = do
  payload ← require_record value place
  require_exact_keys payload
      (text "schemaVersion"
        ∷ text "summary"
        ∷ text "firstKeptEntryId"
        ∷ text "tokensBefore"
        ∷ text "estimatedTokensAfter"
        ∷ text "reason"
        ∷ text "isSplitTurn"
        ∷ text "previousCompactionEntryId"
        ∷ text "mailboxAttentionState"
        ∷ [])
      (text "manualFocus" ∷ text "restResumeState" ∷ []) place
  demand (is_version 1 (prop (text "schemaVersion") payload)) place unsupported_version
  summary ← member payload place (text "summary") require_non_empty_string
  reason ← member payload place (text "reason") parse_reason
  split ← member payload place (text "isSplitTurn") require_boolean
  first ← member payload place (text "firstKeptEntryId") parse_nullable_entry_id
  before ← member payload place (text "tokensBefore") require_non_negative_safe_integer
  after ← member payload place (text "estimatedTokensAfter") require_non_negative_safe_integer
  previous ← member payload place (text "previousCompactionEntryId") parse_nullable_entry_id
  state ← member payload place (text "mailboxAttentionState") parse_mailbox_attention_state
  ok (record {
    summary = summary;
    first_kept_entry_id = first;
    tokens_before = before;
    estimated_tokens_after = after;
    reason = reason;
    is_split_turn = split;
    previous_compaction_entry_id = previous;
    mailbox_attention_state = state;
  })

-- ===== src/Ledger/Parse/State.antt =====
-- The stored runtime state (src/agent/agent-ledger-projection.ts: parseAgentRuntimeState,
-- parseConversationFocus).
use qq_bot_v.Prelude.{
  ℕ, Option, none, some, [], ◌∷◌, nat_eq, text_eq, text, if◌then◌else◌, ok, err, ◌>>=◌, ◌>>◌,
}
use qq_bot_v.Prelude.Values.{Value, null, object, Instant, prop, is_text}
use qq_bot_v.Mailbox.InboxCursors.{InboxReadCursors, parse_inbox_read_cursors}
use qq_bot_v.Ledger.Runtime.{
  Platform, qq, feishu, ConversationKind, group, private, ConversationRef, RuntimeState,
}
use qq_bot_v.Ledger.Json.{
  Place, Parsed, reject, demand, demand_some, key, bad_date, unsupported_version, bad_head,
  bad_platform, bad_kind, bad_inbox_cursors, require_record, require_exact_keys,
  require_non_empty_string, clone_json_object,
}
use qq_bot_v.Ledger.Json.{member, as_positive_bigint, as_date, is_version}

abbrev pub parse_platform : Value → Place → Parsed Platform
parse_platform value place =
    if is_text (text "qq") value
    then ok qq
    else if is_text (text "feishu") value
    then ok feishu
    else reject place bad_platform

abbrev pub parse_kind : Value → Place → Parsed ConversationKind
parse_kind value place =
    if is_text (text "group") value
    then ok group
    else if is_text (text "private") value
    then ok private
    else reject place bad_kind

unfoldable pub parse_conversation_focus : Value → Place → Parsed (Option ConversationRef)
parse_conversation_focus null place = ok none
parse_conversation_focus value place = do
  focus ← require_record value place
  require_exact_keys focus
      (text "platform" ∷ text "accountId" ∷ text "kind" ∷ text "externalId" ∷ []) [] place
  platform ← member focus place (text "platform") parse_platform
  kind ← member focus place (text "kind") parse_kind
  account_id ← member focus place (text "accountId") require_non_empty_string
  external_id ← member focus place (text "externalId") require_non_empty_string
  ok (
      some (record {
        platform = platform;
        account_id = account_id;
        kind = kind;
        external_id = external_id;
      }))

abbrev pub parse_last_wake_at : Value → Place → Parsed (Option Instant)
parse_last_wake_at null place = ok none
parse_last_wake_at value place = demand_some (as_date value) place bad_date >>= λ t. ok (some t)

abbrev pub parse_head : Value → Place → Parsed (Option ℕ)
parse_head null place = ok none
parse_head value place = demand_some (as_positive_bigint value) place bad_head >>= λ n. ok (some n)

abbrev pub parse_inbox : Value → Place → Parsed InboxReadCursors
parse_inbox value place = elim (parse_inbox_read_cursors value) [
  | ok cursors ↦ ok cursors
  | err e ↦ reject place (bad_inbox_cursors e)
]

unfoldable pub parse_agent_runtime_state : Value → Parsed RuntimeState
unfolding parse_conversation_focus
parse_agent_runtime_state value = do
  let place = key (text "runtimeState") ∷ []
  state ← require_record value place
  require_exact_keys state
      (text "schemaVersion"
        ∷ text "mailboxCursors"
        ∷ text "inboxReadCursors"
        ∷ text "mailboxContinuity"
        ∷ text "conversationFocus"
        ∷ text "lastWakeAt"
        ∷ text "ledgerHeadEntryId"
        ∷ [])
      [] place
  demand (is_version 4 (prop (text "schemaVersion") state)) place unsupported_version
  wake ← member state place (text "lastWakeAt") parse_last_wake_at
  head ← member state place (text "ledgerHeadEntryId") parse_head
  inbox ← member state place (text "inboxReadCursors") parse_inbox
  cursors ← member state place (text "mailboxCursors") clone_json_object
  continuity ← member state place (text "mailboxContinuity") clone_json_object
  focus ← member state place (text "conversationFocus") parse_conversation_focus
  ok (record {
    mailbox_cursors = object cursors;
    inbox_read_cursors = inbox;
    mailbox_continuity = object continuity;
    conversation_focus = focus;
    last_wake_at = wake;
    ledger_head_entry_id = head;
  })

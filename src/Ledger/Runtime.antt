-- ===== src/Ledger/Runtime.antt =====
-- The runtime state beside the ledger and its integrity checks (src/agent/agent-ledger.types.ts,
-- src/agent/snapshot-integrity.ts: validateConversationFocus, validateMailboxCursors,
-- validateMailboxContinuity). The cursors and the continuity are stored values not yet trusted.
use qq_bot_v.Prelude.{
  ℕ, Bool, true, false, not, Option, none, some, List, [], ◌∷◌, ◌++◌, text_eq, Text, text, is_blank,
  if◌then◌else◌,
}
use qq_bot_v.Prelude.Values.{
  Instant, Value, undefined, null, object, Fields, entries, prop, non_negative_safe,
}
use qq_bot_v.Mailbox.Keys.{is_mailbox_key}

pub data Platform : Type 0 where
  qq feishu : Platform

pub data ConversationKind : Type 0 where
  group private : ConversationKind

pub record ConversationRef : Type 0 where
  pub platform : Platform
  pub account_id : Text
  pub kind : ConversationKind
  pub external_id : Text

pub record RuntimeState : Type 0 where
  pub mailbox_cursors : Value
  pub inbox_read_cursors : List (Text × ℕ)
  pub mailbox_continuity : Value
  pub conversation_focus : Option ConversationRef
  pub last_wake_at : Option Instant
  pub ledger_head_entry_id : Option ℕ

pub data StateError : Type 0 where
  blank_account_id blank_external_id cursors_not_object continuity_not_object : StateError
  mailboxes_not_object : StateError
  bad_cursor_key bad_cursor bad_mailbox_key anchor_not_object : Text → StateError
  bad_field : Text → StateError
  bad_anchor_field : Text → Text → StateError

abbrev error_when : Bool → StateError → List StateError
error_when true e = e ∷ []
error_when false e = []

validate_focus : Option ConversationRef → List StateError
validate_focus none = []
validate_focus (some f) =
    error_when (is_blank f.account_id) blank_account_id
    ++ error_when (is_blank f.external_id) blank_external_id

abbrev is_safe : Value → Bool
is_safe v = elim (non_negative_safe v) [ none ↦ false | some n ↦ true ]

-- `value == null`, or a non-negative safe integer.
abbrev is_safe_or_absent : Value → Bool
is_safe_or_absent undefined = true
is_safe_or_absent null = true
is_safe_or_absent v = is_safe v

validate_cursor_entries : List (Text × Value) → List StateError
validate_cursor_entries [] = []
validate_cursor_entries ((key, value) ∷ rest) =
    error_when (not (is_mailbox_key key)) (bad_cursor_key key)
    ++ error_when (not (is_safe value)) (bad_cursor key)
    ++ validate_cursor_entries rest

validate_mailbox_cursors : Value → List StateError
unfolding validate_cursor_entries
validate_mailbox_cursors (object fs) = validate_cursor_entries (entries fs)
validate_mailbox_cursors _ = cursors_not_object ∷ []

abbrev anchor_field_errors : Text → Fields → List Text → List StateError
anchor_field_errors key fs [] = []
anchor_field_errors key fs (name ∷ names) =
    error_when (not (is_safe (prop name fs))) (bad_anchor_field key name)
    ++ anchor_field_errors key fs names

abbrev optional_anchor_errors : Text → Fields → List Text → List StateError
optional_anchor_errors key fs [] = []
optional_anchor_errors key fs (name ∷ names) =
    error_when (not (is_safe_or_absent (prop name fs))) (bad_anchor_field key name)
    ++ optional_anchor_errors key fs names

validate_anchor : Text → Value → List StateError
validate_anchor key (object fs) =
    anchor_field_errors key fs
      (text "lastMessageAtMs" ∷ text "roundSeq" ∷ text "compactionEpoch" ∷ [])
    ++ optional_anchor_errors key fs (text "inputTokens" ∷ text "engagedUntilMs" ∷ [])
validate_anchor key _ = anchor_not_object key ∷ []

validate_anchors : List (Text × Value) → List StateError
unfolding validate_anchor
validate_anchors [] = []
validate_anchors ((key, anchor) ∷ rest) =
    (if is_mailbox_key key then validate_anchor key anchor else bad_mailbox_key key ∷ [])
    ++ validate_anchors rest

validate_mailboxes : Value → List StateError
unfolding validate_anchors
validate_mailboxes undefined = []
validate_mailboxes null = []
validate_mailboxes (object fs) = validate_anchors (entries fs)
validate_mailboxes _ = mailboxes_not_object ∷ []

validate_mailbox_continuity : Value → List StateError
unfolding validate_mailboxes
validate_mailbox_continuity undefined = []
validate_mailbox_continuity null = []
validate_mailbox_continuity (object fs) =
    error_when (not (is_safe_or_absent (prop (text "roundSeq") fs))) (bad_field (text "roundSeq"))
    ++ error_when (not (is_safe_or_absent (prop (text "compactionEpoch") fs)))
        (bad_field (text "compactionEpoch"))
    ++ error_when (not (is_safe_or_absent (prop (text "lastInputTokens") fs)))
        (bad_field (text "lastInputTokens"))
    ++ validate_mailboxes (prop (text "mailboxes") fs)
validate_mailbox_continuity _ = continuity_not_object ∷ []

-- All that the snapshot check finds wrong beside the messages.
unfoldable pub validate_runtime_state : RuntimeState → List StateError
unfolding validate_focus validate_mailbox_cursors validate_mailbox_continuity
validate_runtime_state state =
    validate_focus state.conversation_focus
    ++ validate_mailbox_cursors state.mailbox_cursors
    ++ validate_mailbox_continuity state.mailbox_continuity

-- ===== src/Ledger/Parse/RoundTrip/State.antt =====
-- A valid runtime state is parsed back from its row.
use qq_bot_v.Prelude.{
  ℕ, zero, suc, ◌≡◌, refl, sym, Bool, true, false, not, ◌&&◌, Option, none, some, text_eq, text,
  text_beq, is_blank, ok,
}
use mathlib.Core.Path.{subst}
use qq_bot_v.Prelude.Values.{Value, null, string, bigint, date, object, Instant, Fields, end, field}
use qq_bot_v.Mailbox.InboxCursors.{InboxReadCursors}
use qq_bot_v.Mailbox.InboxCursors.Laws.{Valid, stored, parse_inbox_read_cursors-stored}
use qq_bot_v.Ledger.Runtime.{
  Platform, qq, feishu, ConversationKind, group, private, ConversationRef, RuntimeState,
}
use qq_bot_v.Ledger.Json.{Place, require_exact_keys}
use qq_bot_v.Ledger.Json.Laws.{is_json_record, clone_json_record_self, and_true}
use qq_bot_v.Ledger.Parse.State.{
  parse_platform, parse_kind, parse_conversation_focus, parse_last_wake_at, parse_head, parse_inbox,
  parse_agent_runtime_state,
}
use qq_bot_v.Ledger.Parse.Stored.{stored_number, when_present, is_positive}
use qq_bot_v.Ledger.Parse.RoundTrip.{not-true}

abbrev stored_platform : Platform → Value
stored_platform qq = string (text "qq")
stored_platform feishu = string (text "feishu")

abbrev stored_kind : ConversationKind → Value
stored_kind group = string (text "group")
stored_kind private = string (text "private")

abbrev stored_focus : Option ConversationRef → Value
stored_focus none = null
stored_focus (some f) = object (
    field (text "platform") (stored_platform f.platform) (
      field (text "accountId") (string f.account_id) (
        field (text "kind") (stored_kind f.kind)
          (field (text "externalId") (string f.external_id) end))))

abbrev stored_wake : Option Instant → Value
stored_wake none = null
stored_wake (some t) = date (some t)

abbrev stored_head : Option ℕ → Value
stored_head none = null
stored_head (some n) = bigint n

-- The row of a runtime state.
abbrev pub stored_runtime_state : RuntimeState → Value
stored_runtime_state s = object (
    field (text "schemaVersion") (stored_number 4) (
      field (text "mailboxCursors") s.mailbox_cursors (
        field (text "inboxReadCursors") (stored s.inbox_read_cursors) (
          field (text "mailboxContinuity") s.mailbox_continuity (
            field (text "conversationFocus") (stored_focus s.conversation_focus) (
              field (text "lastWakeAt") (stored_wake s.last_wake_at)
                (field (text "ledgerHeadEntryId") (stored_head s.ledger_head_entry_id) end)))))))

abbrev valid_focus : ConversationRef → Bool
valid_focus f = not (is_blank f.account_id) && not (is_blank f.external_id)

abbrev is_json_object : Value → Bool
is_json_object (object fs) = is_json_record fs
is_json_object _ = false

-- What a runtime state can hold: JSON objects with sorted keys, no blank account or conversation,
-- and a positive head.
abbrev pub valid_state : RuntimeState → Bool
valid_state s =
    is_json_object s.mailbox_cursors
    && (is_json_object s.mailbox_continuity
        && (when_present valid_focus s.conversation_focus
            && when_present is_positive s.ledger_head_entry_id))

parse_platform-stored :
    (p : Platform) (place : Place) → parse_platform (stored_platform p) place ≡ ok p
unfolding text_beq
parse_platform-stored qq place = refl
parse_platform-stored feishu place = refl

parse_kind-stored : (k : ConversationKind) (place : Place) → parse_kind (stored_kind k) place ≡ ok k
unfolding text_beq
parse_kind-stored group place = refl
parse_kind-stored private place = refl

parse_conversation_focus-stored :
    (o : Option ConversationRef) (place : Place)
    → when_present valid_focus o ≡ true
    → parse_conversation_focus (stored_focus o) place ≡ ok o
unfolding parse_conversation_focus require_exact_keys text_beq
parse_conversation_focus-stored none place h = refl
parse_conversation_focus-stored (some f) place h =
    let (account, external) =
      and_true (not (is_blank f.account_id)) (not (is_blank f.external_id)) h in
    rw
      (
        parse_platform-stored f.platform _,
        parse_kind-stored f.kind _,
        not-true account,
        not-true external,
      )
      refl

parse_last_wake_at-stored :
    (o : Option Instant) (place : Place) → parse_last_wake_at (stored_wake o) place ≡ ok o
parse_last_wake_at-stored none place = refl
parse_last_wake_at-stored (some t) place = refl

parse_head-stored :
    (o : Option ℕ) (place : Place)
    → when_present is_positive o ≡ true
    → parse_head (stored_head o) place ≡ ok o
parse_head-stored none place h = refl
parse_head-stored (some zero) place h = cc
parse_head-stored (some (suc n)) place h = refl

parse_inbox-stored :
    (cs : InboxReadCursors) (place : Place) → Valid cs → parse_inbox (stored cs) place ≡ ok cs
parse_inbox-stored cs place v = rw (parse_inbox, parse_inbox_read_cursors-stored cs v) refl

from_objects :
    (cursors continuity : Fields) (s : RuntimeState)
    → is_json_record cursors ≡ true
    → is_json_record continuity ≡ true
    → when_present valid_focus s.conversation_focus ≡ true
    → when_present is_positive s.ledger_head_entry_id ≡ true
    → Valid s.inbox_read_cursors
    → let t = record s {
      mailbox_cursors = object cursors;
      mailbox_continuity = object continuity;
    } in
      parse_agent_runtime_state (stored_runtime_state t) ≡ ok t
unfolding parse_agent_runtime_state require_exact_keys text_beq
from_objects cursors continuity s c k f h v =
    rw
      (
        parse_last_wake_at-stored s.last_wake_at _,
        parse_head-stored s.ledger_head_entry_id _ h,
        parse_inbox-stored s.inbox_read_cursors _ v,
        clone_json_record_self cursors _ c,
        clone_json_record_self continuity _ k,
        parse_conversation_focus-stored s.conversation_focus _ f,
      )
      refl

json_object :
    (v : Value)
    → is_json_object v ≡ true
    → (fs : Fields) × (v ≡ object fs) × (is_json_record fs ≡ true)
json_object (object fs) h = (fs, refl, h)
json_object _ h = cc

-- A runtime state that can be stored, with valid inbox cursors, is parsed back from its row.
pub parse_agent_runtime_state-stored :
    (s : RuntimeState)
    → valid_state s ≡ true
    → Valid s.inbox_read_cursors
    → parse_agent_runtime_state (stored_runtime_state s) ≡ ok s
parse_agent_runtime_state-stored s h v =
    let focused = when_present valid_focus s.conversation_focus in
    let headed = when_present is_positive s.ledger_head_entry_id in
    let (c, more) =
      and_true (is_json_object s.mailbox_cursors)
        (is_json_object s.mailbox_continuity && (focused && headed)) h in
    let (k, last) = and_true (is_json_object s.mailbox_continuity) (focused && headed) more in
    let (f, n) = and_true focused headed last in
    let (cursors, is_cursors, cursors_json) = json_object s.mailbox_cursors c in
    let (continuity, is_continuity, continuity_json) = json_object s.mailbox_continuity k in
    subst (Back s.mailbox_cursors) (sym is_continuity) (
      subst (λ a. Back a (object continuity)) (sym is_cursors)
        (from_objects cursors continuity s cursors_json continuity_json f n v))
  where
    Back : Value → Value → Type 0
    Back a b =
        let t = record s { mailbox_cursors = a; mailbox_continuity = b } in
        parse_agent_runtime_state (stored_runtime_state t) ≡ ok t

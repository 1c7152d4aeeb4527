-- ===== src/Examples/Mailbox.antt =====
-- The theorems on mailboxes at two messages of a group and a private one.
use qq_bot_v.Prelude.{
  ℕ, ◌≡◌, ◌≤◌, refl, max, true, false, Bool, Option, none, some, List, [], ◌∷◌, ◌++◌, map, keep,
  arith, text, Text, All, ok, lookup, text_eq, text_beq,
}
use qq_bot_v.Prelude.Values.{Value, object, string, number, natural, field, end}
use qq_bot_v.Ledger.Types.{user}
use qq_bot_v.Events.Types.{BotEvent, MessageEvent, message_event, napcat_message, wake}
use qq_bot_v.Mailbox.Attention.{capture_mailbox_attention_state}
use qq_bot_v.Mailbox.Attention.Laws.{
  disclosed, mark_at, largest, history_facts, mark_at-capture, mark_at-capture_append,
}
use qq_bot_v.Mailbox.Plan.{
  MailboxDisclosurePlan, mailbox, direct, plan_of, cursor_at, plan_mailbox_disclosures,
}
use qq_bot_v.Mailbox.Plan.Laws.{is_direct, cursor_at-plan_mailbox_disclosures}
use qq_bot_v.Mailbox.Plan.Replay.{plan_mailbox_disclosures-again}
use qq_bot_v.Mailbox.Plan.Batches.{IsNew, plan_mailbox_disclosures-IsNew}
use qq_bot_v.Mailbox.Continuity.{
  MailboxContinuityState, MailboxContinuityAnchor, full, create_empty_mailbox_continuity_state,
  record_mailbox_engagement, is_mailbox_engaged, decide_mailbox_compensation,
}
use qq_bot_v.Mailbox.Continuity.Laws.{
  Operation, engaged, round, compacted, run, record_mailbox_engagement-lasts,
}
use qq_bot_v.Mailbox.Continuity.Epochs.{compaction-decide_mailbox_compensation}
use qq_bot_v.Prelude.{◌==◌, if◌then◌else◌}
use qq_bot_v.Mailbox.InboxCursors.{InboxReadCursors, parse_inbox_read_cursors, or_zero}
use qq_bot_v.Mailbox.InboxCursors.Laws.{Valid, advance_inbox_read_cursor-Valid}

-- A text that starts with a brace is read as the notification of row 7 of a mailbox.
abbrev notification : Value
notification = object (
    field (text "event") (string (text "notification")) (
      field (text "kind") (string (text "inbox_update")) (
        field (text "data")
          (object (
            field (text "mailbox") (string (text "qq_group:5"))
              (field (text "throughRowId") (number (natural 7)) end)))
          end)))

abbrev parse : Text → Option Value
parse [] = none
parse (c ∷ s) = some notification

mark_at-capture_example :
    mark_at disclosed
      (text "qq_group:5")
      (capture_mailbox_attention_state parse (user (text "{}") ∷ []))
    ≡ largest disclosed (text "qq_group:5") (history_facts parse (user (text "{}") ∷ []))
mark_at-capture_example =
    mark_at-capture parse disclosed (text "qq_group:5") (user (text "{}") ∷ [])

mark_at-capture_append_example :
    mark_at disclosed
      (text "qq_group:5")
      (capture_mailbox_attention_state parse ((user (text "{}") ∷ []) ++ user [] ∷ []))
    ≡ max
        (mark_at disclosed
          (text "qq_group:5")
          (capture_mailbox_attention_state parse (user (text "{}") ∷ [])))
        (mark_at disclosed
          (text "qq_group:5")
          (capture_mailbox_attention_state parse (user [] ∷ [])))
mark_at-capture_append_example =
    mark_at-capture_append parse disclosed (text "qq_group:5") (user (text "{}") ∷ [])
      (user [] ∷ [])

abbrev in_group : ℕ → MessageEvent
in_group row = napcat_message (record {
  message_row_id = row;
  group_id = 5;
  group_name = none;
  message_id = 1;
  sender_id = 2;
  sender_nickname = text "n";
  mentioned_self = false;
  sent_at = 0;
  rendered_text = text "x";
})

abbrev waiting : List BotEvent
waiting =
    message_event (in_group 4) ∷ wake ∷ message_event (in_group 3) ∷ message_event (in_group 6) ∷ []

abbrev planned : MailboxDisclosurePlan
planned =
    plan_of (mailbox (text "qq_group:5") (in_group 4 ∷ in_group 6 ∷ []) ∷ direct wake ∷ [])
      ((text "qq_group:5", 6) ∷ [])

cursor_at-plan_mailbox_disclosures_example : cursor_at (text "qq_group:5") planned.cursors ≡ 6
unfolding plan_mailbox_disclosures text_beq qq_bot_v.Prelude.Json.decimal
cursor_at-plan_mailbox_disclosures_example =
    cursor_at-plan_mailbox_disclosures (text "qq_group:5") waiting [] planned refl

plan_mailbox_disclosures-again_example :
    plan_mailbox_disclosures waiting planned.cursors
    ≡ ok (plan_of (map direct (keep is_direct waiting)) planned.cursors)
unfolding plan_mailbox_disclosures text_beq qq_bot_v.Prelude.Json.decimal
plan_mailbox_disclosures-again_example = plan_mailbox_disclosures-again waiting [] planned refl

plan_mailbox_disclosures-IsNew_example :
    All (IsNew [] planned.cursors) planned.disclosures
    × ((k : Text) → cursor_at k [] ≤ cursor_at k planned.cursors)
unfolding plan_mailbox_disclosures text_beq qq_bot_v.Prelude.Json.decimal
plan_mailbox_disclosures-IsNew_example = plan_mailbox_disclosures-IsNew waiting [] planned refl

abbrev group_anchor : MailboxContinuityAnchor
group_anchor = record {
  last_message_at_ms = 100;
  round_seq = 0;
  input_tokens = none;
  compaction_epoch = 0;
  engaged_until_ms = some 150;
}

abbrev engaged_state : MailboxContinuityState
engaged_state = record {
  round_seq = 0;
  last_input_tokens = none;
  compaction_epoch = 0;
  mailboxes = (text "qq_group:5", group_anchor) ∷ [];
}

record_mailbox_engagement-lasts_example :
    is_mailbox_engaged (run (compacted ∷ round none ∷ []) engaged_state) (text "qq_group:5") 140
    ≡ true
unfolding record_mailbox_engagement qq_bot_v.Mailbox.Keys.is_mailbox_key text_beq
    create_empty_mailbox_continuity_state
record_mailbox_engagement-lasts_example =
    record_mailbox_engagement-lasts create_empty_mailbox_continuity_state engaged_state
      (text "qq_group:5") 100 50 140 (compacted ∷ round none ∷ []) refl (omega arith)

compaction-decide_mailbox_compensation_example :
    ((decide_mailbox_compensation
        (run
          (compacted ∷ round none ∷ [])
          (run (engaged (text "qq_group:5") 100 50 ∷ []) create_empty_mailbox_continuity_state))
        (text "qq_group:5")
        120).mode
      ≡ full)
    × ((decide_mailbox_compensation
          (run
            (compacted ∷ round none ∷ [])
            (run (engaged (text "qq_group:5") 100 50 ∷ []) create_empty_mailbox_continuity_state))
          (text "qq_group:5")
          120).context_before
        ≡ 8)
unfolding qq_bot_v.Mailbox.Continuity.Laws.step record_mailbox_engagement
    qq_bot_v.Mailbox.Keys.is_mailbox_key text_beq create_empty_mailbox_continuity_state
compaction-decide_mailbox_compensation_example =
    compaction-decide_mailbox_compensation (engaged (text "qq_group:5") 100 50 ∷ [])
      (round none ∷ []) (text "qq_group:5") group_anchor 120 refl (refl, tt)

abbrev read_cursors : InboxReadCursors
read_cursors = (text "qq_group:5", 7) ∷ (text "qq_private:8", 2) ∷ []

advance_inbox_read_cursor-Valid_example :
    Valid ((text "qq_group:5", 9) ∷ (text "qq_private:8", 2) ∷ [])
    × ((j : Text)
        → lookup j ((text "qq_group:5", 9) ∷ (text "qq_private:8", 2) ∷ []) ≡ (
            if text "qq_group:5" == j
            then some (max (or_zero (lookup (text "qq_group:5") read_cursors)) 9)
            else lookup j read_cursors))
unfolding qq_bot_v.Mailbox.Keys.is_mailbox_key text_beq
    qq_bot_v.Mailbox.InboxCursors.advance_inbox_read_cursor
advance_inbox_read_cursor-Valid_example =
    advance_inbox_read_cursor-Valid read_cursors
      ((text "qq_group:5", 9) ∷ (text "qq_private:8", 2) ∷ []) (text "qq_group:5") 9
      (refl, (omega arith, (refl, (refl, (omega arith, (refl, tt)))))) refl

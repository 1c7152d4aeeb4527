-- ===== src/Ledger/Parse/RoundTrip/Entries.antt =====
-- Valid compactions and entries.
use qq_bot_v.Prelude.{
  ℕ, zero, suc, ◌≡◌, refl, ap, ◌∙◌, Bool, true, not, ◌&&◌, Option, none, some, List, [], ◌∷◌,
  text_eq, Text, text_beq, is_blank, ok, arith,
}
use qq_bot_v.Prelude.Json.{sort_entries}
use qq_bot_v.Prelude.Json.Decimals.{decimal_value-decimal, is_positive_decimal-decimal}
use qq_bot_v.Prelude.Json.Sorting.{is_sorted}
use qq_bot_v.Prelude.Values.{object, bigint}
use qq_bot_v.Mailbox.Keys.{is_mailbox_key}
use qq_bot_v.Ledger.Types.{
  CompactionReason, threshold, overflow, behavioral_reset, AttentionCursors, CompactionPayload,
  Entry, message_entry, compaction_entry,
}
use qq_bot_v.Ledger.Json.{
  Place, collect, as_positive_bigint, require_exact_keys, parse_nullable_entry_id,
}
use qq_bot_v.Ledger.Json.Laws.{and_true, succeeded, collect-sort_entries}
use qq_bot_v.Ledger.Parse.Compactions.{
  parse_reason, parse_attention_cursors, parse_attention_mailboxes, parse_mailbox_attention_state,
  parse_compaction_payload,
}
use qq_bot_v.Ledger.Parse.Messages.{parse_message_payload}
use qq_bot_v.Ledger.Parse.Entries.{parse_agent_ledger_entry}
use qq_bot_v.Ledger.Parse.Stored.{
  stored_id, stored_reason, stored_cursors, stored_state, stored_payload, stored_entry,
  when_present, is_positive, within_safe, valid_cursors, valid_mailboxes, valid_payload,
  valid_entry, valid_message,
}
use qq_bot_v.Ledger.Parse.RoundTrip.{not-true, safe-stored, parse_durable_agent_message-stored}

parse_nullable_entry_id-stored :
    (id : Option ℕ) (place : Place)
    → when_present is_positive id ≡ true
    → parse_nullable_entry_id (stored_id id) place ≡ ok id
parse_nullable_entry_id-stored none place h = refl
parse_nullable_entry_id-stored (some zero) place h = cc
parse_nullable_entry_id-stored (some (suc n)) place h =
    rw (is_positive_decimal-decimal (suc n) (omega arith), decimal_value-decimal (suc n)) refl

parse_reason-stored :
    (r : CompactionReason) (place : Place) → parse_reason (stored_reason r) place ≡ ok r
unfolding text_beq
parse_reason-stored threshold place = refl
parse_reason-stored overflow place = refl
parse_reason-stored behavioral_reset place = refl

cursors-stored :
    (disclosed handled : ℕ) (high : Option ℕ) (place : Place)
    → within_safe disclosed ≡ true
    → within_safe handled ≡ true
    → when_present within_safe high ≡ true
    → let c : AttentionCursors = record {
      disclosed_through_row_id = disclosed;
      handled_through_row_id = handled;
      high_priority_through_row_id = high;
    } in
      parse_attention_cursors (stored_cursors c) place ≡ ok c
unfolding parse_attention_cursors require_exact_keys text_beq
cursors-stored disclosed handled none place d h p =
    rw (safe-stored disclosed d, safe-stored handled h) refl
cursors-stored disclosed handled (some n) place d h p =
    rw (safe-stored disclosed d, safe-stored handled h, safe-stored n p) refl

parse_attention_cursors-stored :
    (c : AttentionCursors) (place : Place)
    → valid_cursors c ≡ true
    → parse_attention_cursors (stored_cursors c) place ≡ ok c
parse_attention_cursors-stored c place h =
    let high = when_present within_safe c.high_priority_through_row_id in
    let (d, more) =
      and_true (within_safe c.disclosed_through_row_id)
        (within_safe c.handled_through_row_id && high) h in
    let (n, p) = and_true (within_safe c.handled_through_row_id) high more in
    cursors-stored c.disclosed_through_row_id c.handled_through_row_id
      c.high_priority_through_row_id place d n p

parse_attention_mailboxes-stored :
    (cs : List (Text × AttentionCursors)) (place : Place)
    → valid_mailboxes cs ≡ true
    → parse_attention_mailboxes (stored_state cs) place ≡ succeeded cs
parse_attention_mailboxes-stored [] place h = refl
parse_attention_mailboxes-stored ((k, c) ∷ cs) place h =
    let (first, others) = and_true (is_mailbox_key k && valid_cursors c) (valid_mailboxes cs) h in
    let (named, good) = and_true (is_mailbox_key k) (valid_cursors c) first in
    rw
      (
        named,
        parse_attention_cursors-stored c _ good,
        parse_attention_mailboxes-stored cs place others,
      )
      refl

parse_mailbox_attention_state-stored :
    (cs : List (Text × AttentionCursors)) (place : Place)
    → is_sorted cs ≡ true
    → valid_mailboxes cs ≡ true
    → parse_mailbox_attention_state (object (stored_state cs)) place ≡ ok cs
unfolding parse_mailbox_attention_state
parse_mailbox_attention_state-stored cs place s h =
    ap (λ l. collect (sort_entries l)) (parse_attention_mailboxes-stored cs place h)
    ∙ collect-sort_entries cs s

parse_compaction_payload-stored :
    (p : CompactionPayload) (place : Place)
    → valid_payload p ≡ true
    → parse_compaction_payload (stored_payload p) place ≡ ok p
unfolding parse_compaction_payload require_exact_keys text_beq
parse_compaction_payload-stored p place h =
    let (summary, h1) = and_true (not (is_blank p.summary)) _ h in
    let (first, h2) = and_true (when_present is_positive p.first_kept_entry_id) _ h1 in
    let (before, h3) = and_true (within_safe p.tokens_before) _ h2 in
    let (after, h4) = and_true (within_safe p.estimated_tokens_after) _ h3 in
    let (previous, h5) = and_true (when_present is_positive p.previous_compaction_entry_id) _ h4 in
    let (ordered, boxes) =
      and_true (is_sorted p.mailbox_attention_state) (valid_mailboxes p.mailbox_attention_state)
        h5 in
    rw
      (
        not-true summary,
        parse_nullable_entry_id-stored p.first_kept_entry_id _ first,
        safe-stored p.tokens_before before,
        safe-stored p.estimated_tokens_after after,
        parse_reason-stored p.reason _,
        parse_nullable_entry_id-stored p.previous_compaction_entry_id _ previous,
        parse_mailbox_attention_state-stored p.mailbox_attention_state _ ordered boxes,
      )
      refl

positive_bigint : (n : ℕ) → is_positive n ≡ true → as_positive_bigint (bigint n) ≡ some n
positive_bigint zero h = cc
positive_bigint (suc n) h = refl

-- A valid entry is parsed back from its row, whatever the row's place: an entry has a positive id,
-- and its message or its compaction is one that the ledger can hold.
pub parse_agent_ledger_entry-stored :
    (json_parses : Text → Bool) (e : Entry) (i : ℕ)
    → valid_entry json_parses e ≡ true
    → parse_agent_ledger_entry json_parses (stored_entry e) i ≡ ok e
unfolding parse_agent_ledger_entry parse_message_payload require_exact_keys text_beq
parse_agent_ledger_entry-stored json_parses (message_entry e) i h =
    let (id, good) = and_true (is_positive e.id) (valid_message json_parses e.message) h in
    rw (positive_bigint e.id id, parse_durable_agent_message-stored json_parses e.message _ good)
      refl
parse_agent_ledger_entry-stored json_parses (compaction_entry e) i h =
    let (id, good) = and_true (is_positive e.id) (valid_payload e.payload) h in
    rw (positive_bigint e.id id, parse_compaction_payload-stored e.payload _ good) refl

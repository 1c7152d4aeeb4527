-- ===== src/Examples/Parsing.antt =====
-- The theorems on the parsers, with an assistant message and its call, and a runtime state.
use qq_bot_v.Prelude.{
  ℕ, ◌≡◌, ◌≤◌, refl, arith, Bool, true, none, some, List, [], ◌∷◌, Text, text, ok,
}
use qq_bot_v.Prelude.Values.{
  Value, number, natural, string, object, Fields, end, field, after_epoch, max_safe_integer,
}
use qq_bot_v.Ledger.Types.{Message, assistant, Entry, message_entry}
use qq_bot_v.Ledger.Runtime.{RuntimeState, qq, group}
use qq_bot_v.Ledger.Parse.Entries.{parse_agent_ledger_entry}
use qq_bot_v.Ledger.Parse.State.{parse_agent_runtime_state}
use qq_bot_v.Ledger.Parse.Stored.{stored_entry, valid_entry}
use qq_bot_v.Ledger.Parse.RoundTrip.Entries.{parse_agent_ledger_entry-stored}
use qq_bot_v.Ledger.Parse.RoundTrip.State.{stored_runtime_state, parse_agent_runtime_state-stored}
use qq_bot_v.Ledger.Parse.Sound.Entries.{parse_agent_ledger_entry-valid_entry}

abbrev arguments : Fields
arguments = field (text "b") (number (natural 2)) (field (text "q") (string (text "x")) end)

abbrev asked : Message
asked = assistant [] (record { id = text "c1"; name = text "search"; args = arguments } ∷ []) none

abbrev asked_entry : Entry
asked_entry = message_entry (record { id = 7; message = asked; created_at = after_epoch 5 })

abbrev accepts_all : Text → Bool
accepts_all s = true

parse_agent_ledger_entry-stored_example :
    parse_agent_ledger_entry accepts_all (stored_entry asked_entry) 0 ≡ ok asked_entry
unfolding qq_bot_v.Prelude.is_blank qq_bot_v.Prelude.text_beq
parse_agent_ledger_entry-stored_example =
    parse_agent_ledger_entry-stored accepts_all asked_entry 0 refl

-- A row whose call has its arguments in another order.
abbrev unsorted_row : Value
unsorted_row = stored_entry (
    message_entry (record {
      id = 7;
      message =
          assistant []
            (record {
              id = text "c1";
              name = text "search";
              args =
                  field (text "q") (string (text "x")) (field (text "b") (number (natural 2)) end);
            }
              ∷ [])
            none;
      created_at = after_epoch 5;
    }))

parse_agent_ledger_entry-valid_entry_example : valid_entry accepts_all asked_entry ≡ true
unfolding parse_agent_ledger_entry qq_bot_v.Ledger.Json.require_exact_keys qq_bot_v.Prelude.text_beq
    qq_bot_v.Ledger.Parse.Messages.parse_message_payload
    qq_bot_v.Ledger.Parse.Messages.parse_durable_agent_message
    qq_bot_v.Ledger.Parse.Messages.parse_tool_call qq_bot_v.Prelude.is_blank
    qq_bot_v.Prelude.Json.sort_entries
parse_agent_ledger_entry-valid_entry_example =
    parse_agent_ledger_entry-valid_entry accepts_all unsorted_row 3 asked_entry refl

abbrev focused_state : RuntimeState
focused_state = record {
  mailbox_cursors = object (field (text "qq_group:9") (number (natural 3)) end);
  inbox_read_cursors = (text "qq_group:9", 3) ∷ [];
  mailbox_continuity = object end;
  conversation_focus =
      some
        (record { platform = qq; account_id = text "bot"; kind = group; external_id = text "9" });
  last_wake_at = some (after_epoch 100);
  ledger_head_entry_id = some 7;
}

parse_agent_runtime_state-stored_example :
    parse_agent_runtime_state (stored_runtime_state focused_state) ≡ ok focused_state
unfolding qq_bot_v.Prelude.is_blank qq_bot_v.Mailbox.Keys.is_mailbox_key qq_bot_v.Prelude.text_beq
parse_agent_runtime_state-stored_example =
    parse_agent_runtime_state-stored focused_state refl (refl, (leb_safe, (refl, tt)))
  where
    leb_safe : 3 ≤ max_safe_integer
    leb_safe = omega arith

-- ===== src/Examples.antt =====
-- Concrete inputs at which the theorems of the development apply, and tests.
use qq_bot_v.Prelude.{ℕ, true, false, none, some, List, [], ◌∷◌, Text, text, Bool}
use qq_bot_v.Prelude.Values.{undefined, end, object, after_epoch}
use qq_bot_v.Ledger.Types.{
  Message, user, assistant, tool, plain, MessageEntry, CompactionEntry, Entry, message_entry,
  overflow,
}
use qq_bot_v.Ledger.Runtime.{RuntimeState}
use qq_bot_v.Compaction.Prepare.{PrepareInput, Ready}
mod Ledger
mod Compaction
mod Mailbox
mod Loop
mod Events
mod Tasks
mod Scheduling
mod Parsing
mod Jobs
mod Schedules
mod Kernel

abbrev hello : Message
hello = user (text "hello")

abbrev asks : Message
asks = assistant [] (record { id = text "c1"; name = text "inbox"; args = end } ∷ []) none

abbrev answer : Message
answer = tool (text "c1") (plain (text "ok"))

abbrev entry : ℕ → Message → MessageEntry
entry id m = record { id = id; message = m; created_at = after_epoch 0 }

abbrev first_entries : List Entry
first_entries =
    message_entry (entry 1 hello)
    ∷ message_entry (entry 2 asks)
    ∷ message_entry (entry 3 answer)
    ∷ message_entry (entry 4 hello)
    ∷ []

abbrev five_entries : List Entry
five_entries =
    message_entry (entry 1 hello)
    ∷ message_entry (entry 2 asks)
    ∷ message_entry (entry 3 answer)
    ∷ message_entry (entry 4 hello)
    ∷ message_entry (entry 5 hello)
    ∷ []

abbrev message_tokens : MessageEntry → ℕ
message_tokens m = 5

abbrev state_at : ℕ → RuntimeState
state_at head = record {
  mailbox_cursors = object end;
  inbox_read_cursors = [];
  mailbox_continuity = undefined;
  conversation_focus = none;
  last_wake_at = none;
  ledger_head_entry_id = some head;
}

abbrev accepts : Text → Bool
accepts s = true

abbrev input : PrepareInput
input = record {
  entries = first_entries;
  through_entry_id = some 4;
  previous_compaction = none;
  context_tokens = 20;
  context_window_tokens = 30;
  reserve_tokens = 10;
  keep_recent_tokens = 5;
  reason = overflow;
}

abbrev prepared : Ready
prepared = record {
  reason = overflow;
  expected_head_entry_id = some 4;
  first_kept_entry_id = some 4;
  entries_to_summarize = entry 1 hello ∷ entry 2 asks ∷ entry 3 answer ∷ [];
  history_entries = entry 1 hello ∷ entry 2 asks ∷ entry 3 answer ∷ [];
  split_turn_prefix_entries = [];
  tail_entries = entry 4 hello ∷ [];
  is_split_turn = false;
  tokens_before = 20;
  estimated_tail_tokens = 5;
  previous_compaction = none;
}

abbrev candidate : CompactionEntry
candidate = record {
  id = 5;
  payload = record {
    summary = text "s";
    first_kept_entry_id = some 4;
    tokens_before = 20;
    estimated_tokens_after = 6;
    reason = overflow;
    is_split_turn = false;
    previous_compaction_entry_id = none;
    mailbox_attention_state = [];
  };
  created_at = after_epoch 0;
}

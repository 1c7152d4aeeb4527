-- ===== src/Mailbox/InboxCursors.antt =====
-- How far the inbox of each mailbox has been read (src/agent/inbox-read-cursors.ts).
pub mod Laws
use qq_bot_v.Prelude.{
  ℕ, max, Bool, true, false, ◌&&◌, Option, none, some, List, [], ◌∷◌, ltb, leb, text_eq, Text,
  lookup, insert, if◌then◌else◌, Result, ok, err, ◌>>=◌, ◌>>◌, guard,
}
use qq_bot_v.Prelude.Values.{Value, as_record, entries, non_negative_safe, max_safe_integer}
use qq_bot_v.Mailbox.Keys.{is_mailbox_key}

abbrev pub InboxReadCursors : Type 0
InboxReadCursors = List (Text × ℕ)

pub data CursorError : Type 0 where
  not_an_object not_positive : CursorError
  invalid_key invalid_cursor : Text → CursorError

abbrev pub put_cursor : InboxReadCursors → Text → Option ℕ → Result CursorError InboxReadCursors
put_cursor cursors mailbox none = err (invalid_cursor mailbox)
put_cursor cursors mailbox (some n) = ok (insert mailbox n cursors)

-- The loop over the entries, with the cursors taken so far.
abbrev pub parse_entries :
    InboxReadCursors → List (Text × Value) → Result CursorError InboxReadCursors
parse_entries cursors [] = ok cursors
parse_entries cursors ((mailbox, value) ∷ rest) =
    guard (is_mailbox_key mailbox) (invalid_key mailbox)
    >> (put_cursor cursors mailbox (non_negative_safe value) >>= λ cursors'.
        parse_entries cursors' rest)

unfoldable pub parse_inbox_read_cursors : Value → Result CursorError InboxReadCursors
parse_inbox_read_cursors value = elim (as_record value) [
  | none ↦ err not_an_object
  | some fs ↦ parse_entries [] (entries fs)
]

abbrev pub or_zero : Option ℕ → ℕ
or_zero none = 0
or_zero (some n) = n

unfoldable pub advance_inbox_read_cursor :
    InboxReadCursors → Text → ℕ → Result CursorError InboxReadCursors
advance_inbox_read_cursor cursors mailbox through_row_id = do
  guard (is_mailbox_key mailbox) (invalid_key mailbox)
  guard (leb through_row_id max_safe_integer && ltb 0 through_row_id) not_positive
  ok (insert mailbox (max (or_zero (lookup mailbox cursors)) through_row_id) cursors)

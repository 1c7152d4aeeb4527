-- ===== src/Mailbox/Render.antt =====
-- The events that record what was handled (src/agent/mailbox-handled.ts: renderMailboxHandledEvent,
-- renderMailboxAttentionStateEvent), and the questions that the loop asks of a history
-- (findPendingMailboxThroughRowId, hasPendingMailboxAttention).
use qq_bot_v.Prelude.{
  ℕ, suc, max, Bool, ◌&&◌, Option, none, some, List, [], ◌∷◌, ltb, leb, Text, text, text_eq, lookup,
  any, if◌then◌else◌, Result, ok, ◌>>=◌, ◌>>◌, guard,
}
use qq_bot_v.Prelude.Values.{Value, max_safe_integer}
use qq_bot_v.Prelude.Json.{decimal, json_string, json_object, sort_entries}
use qq_bot_v.Ledger.Types.{Message, AttentionCursors}
use qq_bot_v.Mailbox.Keys.{is_mailbox_key, is_private_mailbox}
use qq_bot_v.Mailbox.Attention.{
  or_zero, AttentionState, high_of, event_key, mailbox_key, through_key, disclosed_key, handled_key,
  high_key, capture_mailbox_attention_state,
}

pub data RenderError : Type 0 where
  invalid_mailbox_key : Text → RenderError
  row_id_not_positive : RenderError
  cursors_not_safe : Text → RenderError

unfoldable pub render_mailbox_handled_event : Text → ℕ → Result RenderError Text
render_mailbox_handled_event mailbox through = do
  guard (is_mailbox_key mailbox) (invalid_mailbox_key mailbox)
  guard (ltb 0 through && leb through max_safe_integer) row_id_not_positive
  ok (
      json_object (
        (event_key, json_string (text "mailbox_handled"))
        ∷ (mailbox_key, json_string mailbox)
        ∷ (through_key, decimal through)
        ∷ []))

abbrev high_member : Option ℕ → List (Text × Text)
high_member (some (suc n)) = (high_key, decimal (suc n)) ∷ []
high_member _ = []

abbrev render_cursors : AttentionCursors → Text
render_cursors c = json_object (
    (disclosed_key, decimal c.disclosed_through_row_id)
    ∷ (handled_key, decimal c.handled_through_row_id)
    ∷ high_member c.high_priority_through_row_id)

render_entries : AttentionState → Result RenderError (List (Text × Text))
render_entries [] = ok []
render_entries ((mailbox, c) ∷ state) = do
  guard (is_mailbox_key mailbox) (invalid_mailbox_key mailbox)
  guard
      (leb c.disclosed_through_row_id max_safe_integer
        && leb c.handled_through_row_id max_safe_integer)
      (cursors_not_safe mailbox)
  rest ← render_entries state
  ok ((mailbox, render_cursors c) ∷ rest)

abbrev attention_event : List (Text × Text) → Text
attention_event members = json_object (
    (event_key, json_string (text "mailbox_attention_state"))
    ∷ (text "mailboxes", json_object members)
    ∷ [])

unfoldable pub render_mailbox_attention_state_event : AttentionState → Result RenderError Text
unfolding render_entries
render_mailbox_attention_state_event state =
    render_entries (sort_entries state) >>= λ members. ok (attention_event members)

-- `inboxReadCursors[mailbox] ?? 0`.
abbrev read_cursor : Text → List (Text × ℕ) → ℕ
read_cursor mailbox cursors = or_zero (lookup mailbox cursors)

abbrev pub wants_attention : List (Text × ℕ) → Text × AttentionCursors → Bool
wants_attention read (mailbox, c) =
    ltb (max c.handled_through_row_id (read_cursor mailbox read))
      (max (if is_private_mailbox mailbox then c.disclosed_through_row_id else high_of c) 0)

abbrev pending_through : Option AttentionCursors → Option ℕ
pending_through none = none
pending_through (some c) =
    if ltb c.handled_through_row_id c.disclosed_through_row_id
    then some c.disclosed_through_row_id
    else none

module _ (parse_json : Text → Option Value) where
  unfoldable pub find_pending_mailbox_through_row_id :
      List Message → Text → Result RenderError (Option ℕ)
  find_pending_mailbox_through_row_id messages mailbox = do
    guard (is_mailbox_key mailbox) (invalid_mailbox_key mailbox)
    ok (pending_through (lookup mailbox (capture_mailbox_attention_state parse_json messages)))

  unfoldable pub has_pending_mailbox_attention : List Message → List (Text × ℕ) → Bool
  has_pending_mailbox_attention messages read =
      any (wants_attention read) (capture_mailbox_attention_state parse_json messages)

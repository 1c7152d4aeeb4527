-- ===== src/Mailbox/Plan.antt =====
-- What of the waiting events is disclosed, and how far each mailbox has been disclosed after it
-- (src/agent/mailbox.ts: mailboxKeyForEvent, isHighPriorityMailboxDisclosure,
-- planMailboxDisclosures).
pub mod Laws
pub mod Replay
pub mod Batches
use qq_bot_v.Prelude.{
  ℕ, ◌+◌, ◌-◌, Bool, true, false, ◌&&◌, ◌||◌, not, Option, none, some, List, [], ◌∷◌, ◌++◌, leb,
  ◌==◌, nat_eq, text_eq, any, lookup, insert, Text, text, if◌then◌else◌, Result, ok, err, ◌>>=◌,
}
use qq_bot_v.Prelude.Json.{decimal}
use qq_bot_v.Events.Conversation.{UriError, conversation_key}
use qq_bot_v.Events.Types.{
  MessageEvent, chat_message, napcat_message, napcat_private_message, MailboxBacklog, BotEvent,
  message_event, mailbox_backlog, message_row_id, is_chat_attention_event,
}

abbrev pub MailboxCursors : Type 0
MailboxCursors = List (Text × ℕ)

pub data MailboxDisclosure : Type 0 where
  direct : BotEvent → MailboxDisclosure
  mailbox : Text → List MessageEvent → MailboxDisclosure
  backlog : MailboxBacklog → MailboxDisclosure

pub record MailboxDisclosurePlan : Type 0 where
  pub disclosures : List MailboxDisclosure
  pub cursors : MailboxCursors

abbrev pub mailbox_key_for_message : MessageEvent → Result UriError Text
mailbox_key_for_message (chat_message e) = conversation_key e.conversation
mailbox_key_for_message (napcat_message e) = ok (text "qq_group:" ++ decimal e.group_id)
mailbox_key_for_message (napcat_private_message e) = ok (text "qq_private:" ++ decimal e.peer_id)

-- `null` for the events of no mailbox; a conversation with a lone surrogate throws.
unfoldable pub mailbox_key_for_event : BotEvent → Result UriError (Option Text)
mailbox_key_for_event (message_event m) = mailbox_key_for_message m >>= λ key. ok (some key)
mailbox_key_for_event (mailbox_backlog b) = ok (some b.mailbox_key)
mailbox_key_for_event _ = ok none

-- `isHighPriorityMailboxEvent` is the same test as `isChatAttentionEvent`.
unfoldable pub is_high_priority_mailbox_disclosure : MailboxDisclosure → Bool
unfolding is_chat_attention_event
is_high_priority_mailbox_disclosure (direct e) = false
is_high_priority_mailbox_disclosure (mailbox key events) = any is_chat_attention_event events
is_high_priority_mailbox_disclosure (backlog b) = b.is_high

abbrev or_zero : Option ℕ → ℕ
or_zero none = 0
or_zero (some n) = n

-- `cursors[mailboxKey] ?? 0`.
abbrev pub cursor_at : Text → MailboxCursors → ℕ
cursor_at key cursors = or_zero (lookup key cursors)

-- The batch of a mailbox stands in its disclosure; the map from the key to it is the search here.
abbrev pub push_message : Text → MessageEvent → List MailboxDisclosure → List MailboxDisclosure
push_message key m [] = mailbox key (m ∷ []) ∷ []
push_message key m (direct e ∷ ds) = direct e ∷ push_message key m ds
push_message key m (backlog b ∷ ds) = backlog b ∷ push_message key m ds
push_message key m (mailbox j batch ∷ ds) =
    if j == key then mailbox j (batch ++ m ∷ []) ∷ ds else mailbox j batch ∷ push_message key m ds

abbrev pub plan_of : List MailboxDisclosure → MailboxCursors → MailboxDisclosurePlan
plan_of disclosures cursors = record { disclosures = disclosures; cursors = cursors }

abbrev plan_backlog : MailboxDisclosurePlan → Text → MailboxBacklog → MailboxDisclosurePlan
plan_backlog p key b =
    if leb b.through_row_id (cursor_at key p.cursors)
    then p
    else plan_of (p.disclosures ++ backlog b ∷ []) (insert key b.through_row_id p.cursors)

abbrev plan_message : MailboxDisclosurePlan → Text → MessageEvent → MailboxDisclosurePlan
plan_message p key m =
    if leb (message_row_id m) (cursor_at key p.cursors)
    then p
    else plan_of (push_message key m p.disclosures) (insert key (message_row_id m) p.cursors)

abbrev plan_direct : MailboxDisclosurePlan → BotEvent → MailboxDisclosurePlan
plan_direct p e = plan_of (p.disclosures ++ direct e ∷ []) p.cursors

-- One round of the loop, for the key of the event.
unfoldable pub plan_event : MailboxDisclosurePlan → BotEvent → Option Text → MailboxDisclosurePlan
plan_event p e none = plan_direct p e
plan_event p (mailbox_backlog b) (some key) = plan_backlog p key b
plan_event p (message_event m) (some key) = plan_message p key m
plan_event p e (some key) = plan_direct p e

abbrev pub plan_from : MailboxDisclosurePlan → List BotEvent → Result UriError MailboxDisclosurePlan
plan_from p [] = ok p
plan_from p (e ∷ es) = mailbox_key_for_event e >>= λ key. plan_from (plan_event p e key) es

unfoldable pub plan_mailbox_disclosures :
    List BotEvent → MailboxCursors → Result UriError MailboxDisclosurePlan
unfolding mailbox_key_for_event plan_event
plan_mailbox_disclosures events cursors = plan_from (plan_of [] cursors) events

-- ===== src/Events/Types.antt =====
-- The events of the agent's loop and which of them call for attention (src/agent/event.ts).
use qq_bot_v.Prelude.{
  ℕ, Bool, true, false, ◌||◌, not, Option, List, has, nat_eq, text_eq, Text, if◌then◌else◌, Result,
  ok, ◌>>=◌,
}
use qq_bot_v.Ledger.Runtime.{ConversationKind, group, private, ConversationRef}
use qq_bot_v.Events.Conversation.{UriError, conversation_key}

pub data MessageFactKind : Type 0 where
  message edit recall : MessageFactKind

pub record ChatMessageEvent : Type 0 where
  pub event_kind : MessageFactKind
  pub message_row_id : ℕ
  pub conversation : ConversationRef
  pub conversation_name : Option Text
  pub message_external_id : Text
  pub sender_external_id : Text
  pub sender_name : Text
  pub mentioned_self : Bool
  pub sent_at : ℕ
  pub rendered_text : Text
  pub media_ids : Option (List ℕ)
  pub reply_to_external_id : Option Text
  pub root_external_id : Option Text
  pub thread_external_id : Option Text

pub record NapcatMessage : Type 0 where
  pub message_row_id : ℕ
  pub group_id : ℕ
  pub group_name : Option Text
  pub message_id : ℕ
  pub sender_id : ℕ
  pub sender_nickname : Text
  pub mentioned_self : Bool
  pub sent_at : ℕ
  pub rendered_text : Text

-- `mentionedSelf` is always true.
pub record NapcatPrivateMessage : Type 0 where
  pub message_row_id : ℕ
  pub peer_id : ℕ
  pub message_id : ℕ
  pub sender_id : ℕ
  pub sender_nickname : Text
  pub sent_at : ℕ
  pub rendered_text : Text

pub data MessageEvent : Type 0 where
  chat_message : ChatMessageEvent → MessageEvent
  napcat_message : NapcatMessage → MessageEvent
  napcat_private_message : NapcatPrivateMessage → MessageEvent

pub data BacklogSource : Type 0 where
  conversation_source : ConversationRef → Option Text → Option Text → BacklogSource
  group_source : ℕ → Option Text → BacklogSource
  private_source : ℕ → Text → BacklogSource

pub record MailboxBacklog : Type 0 where
  pub mailbox_key : Text
  pub is_high : Bool
  pub source : BacklogSource
  pub count : ℕ
  pub first_row_id : ℕ
  pub through_row_id : ℕ
  pub recent_after_row_id : ℕ
  pub sender_count : Option ℕ
  pub from : ℕ
  pub to : ℕ

pub data BotEvent : Type 0 where
  message_event : MessageEvent → BotEvent
  wake bootstrap : BotEvent
  scheduled_wake : Text → Text → ℕ → BotEvent
  background_task_completed : Text → Text → Text → ℕ → Bool → Text → BotEvent
  mailbox_backlog : MailboxBacklog → BotEvent

abbrev pub message_row_id : MessageEvent → ℕ
message_row_id (chat_message e) = e.message_row_id
message_row_id (napcat_message e) = e.message_row_id
message_row_id (napcat_private_message e) = e.message_row_id

abbrev is_message : MessageFactKind → Bool
is_message message = true
is_message _ = false

abbrev is_private : ConversationKind → Bool
is_private private = true
is_private group = false

unfoldable pub is_chat_attention_event : MessageEvent → Bool
is_chat_attention_event (chat_message e) =
    not (is_message e.event_kind) || is_private e.conversation.kind || e.mentioned_self
is_chat_attention_event (napcat_message e) = e.mentioned_self
is_chat_attention_event (napcat_private_message e) = true

-- `passiveSources` holds strings and numbers.
pub record PassiveSources : Type 0 where
  pub keys : List Text
  pub groups : List ℕ

abbrev is_passive : MessageEvent → PassiveSources → Result UriError Bool
is_passive (chat_message e) passive =
    if is_private e.conversation.kind
    then ok false
    else conversation_key e.conversation >>= λ key. ok (has key passive.keys)
is_passive (napcat_message e) passive = ok (has e.group_id passive.groups)
is_passive (napcat_private_message e) passive = ok false

unfoldable pub should_queue_chat_event : MessageEvent → PassiveSources → Result UriError Bool
unfolding is_chat_attention_event
should_queue_chat_event e passive =
    if is_chat_attention_event e then ok true else is_passive e passive

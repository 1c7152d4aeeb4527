-- ===== src/Ledger/Types.antt =====
-- The messages that the model sees and the entries of the ledger
-- (src/agent/agent-context.types.ts, src/agent/agent-ledger.types.ts).
use qq_bot_v.Prelude.{ℕ, Bool, Option, List, [], ◌∷◌, Text}
use qq_bot_v.Prelude.Values.{Value, Fields, Instant}

-- `args: Record<string, unknown>` is its list of properties.
pub record ToolCall : Type 0 where
  pub id : Text
  pub name : Text
  pub args : Fields

pub data ContentBlock : Type 0 where
  text_block : Text → ContentBlock
  image_ref : Text → Text → Option ℕ → Option ℕ → Option Text → ContentBlock

pub data ToolContent : Type 0 where
  plain : Text → ToolContent
  blocks : List ContentBlock → ToolContent

-- `AgentMessage`; an assistant message has its content, its tool calls and its native blocks.
pub data Message : Type 0 where
  user : Text → Message
  assistant : Text → List ToolCall → Option (List Value) → Message
  tool : Text → ToolContent → Message

pub data Role : Type 0 where
  user_role assistant_role tool_role : Role

abbrev pub role : Message → Role
role (user _) = user_role
role (assistant _ _ _) = assistant_role
role (tool _ _) = tool_role

pub data CompactionReason : Type 0 where
  threshold overflow behavioral_reset : CompactionReason

-- What a mailbox has disclosed and what was handled, with the optional high-priority mark.
pub record AttentionCursors : Type 0 where
  pub disclosed_through_row_id : ℕ
  pub handled_through_row_id : ℕ
  pub high_priority_through_row_id : Option ℕ

-- Entry ids are positive decimal strings in the payload and bigints in the entry; both are the
-- number here. The constant `schemaVersion` is left out.
pub record CompactionPayload : Type 0 where
  pub summary : Text
  pub first_kept_entry_id : Option ℕ
  pub tokens_before : ℕ
  pub estimated_tokens_after : ℕ
  pub reason : CompactionReason
  pub is_split_turn : Bool
  pub previous_compaction_entry_id : Option ℕ
  pub mailbox_attention_state : List (Text × AttentionCursors)

pub record MessageEntry : Type 0 where
  pub id : ℕ
  pub message : Message
  pub created_at : Instant

pub record CompactionEntry : Type 0 where
  pub id : ℕ
  pub payload : CompactionPayload
  pub created_at : Instant

pub data Entry : Type 0 where
  message_entry : MessageEntry → Entry
  compaction_entry : CompactionEntry → Entry

abbrev pub entry_id : Entry → ℕ
entry_id (message_entry m) = m.id
entry_id (compaction_entry c) = c.id

-- The entries of type `message`, in order.
abbrev pub message_entries : List Entry → List MessageEntry
message_entries [] = []
message_entries (message_entry m ∷ es) = m ∷ message_entries es
message_entries (compaction_entry c ∷ es) = message_entries es

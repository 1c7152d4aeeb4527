-- ===== src/Ledger/Parse/Stored.antt =====
-- What entries are stored as, and which entries the ledger can hold.
use qq_bot_v.Prelude.{
  ℕ, zero, suc, Bool, true, false, not, ◌&&◌, ◌||◌, Option, none, some, List, [], ◌∷◌, text_eq,
  Text, text, trim, starts_with, is_blank, is_positive_decimal, leb, map,
}
use qq_bot_v.Prelude.Json.{decimal}
use qq_bot_v.Prelude.Json.Sorting.{is_sorted}
use qq_bot_v.Prelude.Values.{
  Value, null, boolean, number, natural, string, bigint, date, array, object, Instant, Fields, end,
  field, Items, nil, cons, prop, is_text, max_safe_integer,
}
use qq_bot_v.Mailbox.Keys.{is_mailbox_key}
use qq_bot_v.Ledger.Types.{
  Message, user, assistant, tool, ToolCall, ToolContent, plain, blocks, ContentBlock, text_block,
  image_ref, CompactionReason, threshold, overflow, behavioral_reset, AttentionCursors,
  CompactionPayload, Entry, message_entry, compaction_entry,
}
use qq_bot_v.Ledger.Json.Laws.{is_json_record}

abbrev pub items_of : List Value → Items
items_of [] = nil
items_of (v ∷ vs) = cons v (items_of vs)

abbrev pub array_of {ℓ} : {A : Type ℓ} → (A → Value) → List A → Value
array_of f xs = array (items_of (map f xs))

abbrev pub optional {ℓ} : {A : Type ℓ} → Text → (A → Value) → Option A → Fields → Fields
optional k f none fs = fs
optional k f (some a) fs = field k (f a) fs

abbrev pub stored_number : ℕ → Value
stored_number n = number (natural n)

abbrev pub stored_call : ToolCall → Value
stored_call c = object (
    field (text "id") (string c.id)
      (field (text "name") (string c.name) (field (text "args") (object c.args) end)))

abbrev pub stored_block : ContentBlock → Value
stored_block (text_block s) =
    object (field (text "type") (string (text "text")) (field (text "text") (string s) end))
stored_block (image_ref id type width height description) = object (
    field (text "type") (string (text "image_ref")) (
      field (text "mediaId") (string id) (
        field (text "mediaType") (string type) (
          optional (text "width") stored_number width (
            optional (text "height") stored_number height
              (optional (text "description") (λ s. string s) description end))))))

abbrev pub stored_content : ToolContent → Value
stored_content (plain s) = string s
stored_content (blocks bs) = array_of stored_block bs

abbrev pub stored_message : Message → Value
stored_message (user content) =
    object
      (field (text "role") (string (text "user")) (field (text "content") (string content) end))
stored_message (assistant content calls native) = object (
    field (text "role") (string (text "assistant")) (
      field (text "content") (string content) (
        field (text "toolCalls") (array_of stored_call calls)
          (optional (text "nativeBlocks") (array_of (λ v. v)) native end))))
stored_message (tool id content) = object (
    field (text "role") (string (text "tool"))
      (field (text "toolCallId") (string id) (field (text "content") (stored_content content) end)))

abbrev pub stored_reason : CompactionReason → Value
stored_reason threshold = string (text "threshold")
stored_reason overflow = string (text "overflow")
stored_reason behavioral_reset = string (text "behavioral_reset")

abbrev pub stored_id : Option ℕ → Value
stored_id none = null
stored_id (some n) = string (decimal n)

abbrev pub stored_cursors : AttentionCursors → Value
stored_cursors c = object (
    field (text "disclosedThroughRowId") (stored_number c.disclosed_through_row_id) (
      field (text "handledThroughRowId") (stored_number c.handled_through_row_id) (
        optional (text "highPriorityThroughRowId") stored_number c.high_priority_through_row_id
          end)))

abbrev pub stored_state : List (Text × AttentionCursors) → Fields
stored_state [] = end
stored_state ((k, c) ∷ cs) = field k (stored_cursors c) (stored_state cs)

abbrev pub stored_payload : CompactionPayload → Value
stored_payload p = object (
    field (text "schemaVersion") (stored_number 1) (
      field (text "summary") (string p.summary) (
        field (text "firstKeptEntryId") (stored_id p.first_kept_entry_id) (
          field (text "tokensBefore") (stored_number p.tokens_before) (
            field (text "estimatedTokensAfter") (stored_number p.estimated_tokens_after) (
              field (text "reason") (stored_reason p.reason) (
                field (text "isSplitTurn") (boolean p.is_split_turn) (
                  field (text "previousCompactionEntryId")
                    (stored_id p.previous_compaction_entry_id)
                    (field (text "mailboxAttentionState")
                      (object (stored_state p.mailbox_attention_state)) end)))))))))

abbrev stored_row : ℕ → Text → Value → Instant → Value
stored_row id type payload created_at = object (
    field (text "id") (bigint id) (
      field (text "entryType") (string type)
        (field (text "payload") payload (field (text "createdAt") (date (some created_at)) end))))

-- The row of an entry.
abbrev pub stored_entry : Entry → Value
stored_entry (message_entry e) =
    stored_row e.id (text "message")
      (object (
        field (text "schemaVersion") (stored_number 1)
          (field (text "message") (stored_message e.message) end)))
      e.created_at
stored_entry (compaction_entry e) =
    stored_row e.id (text "compaction") (stored_payload e.payload) e.created_at

abbrev pub all_of {ℓ} : {A : Type ℓ} → (A → Bool) → List A → Bool
all_of p [] = true
all_of p (x ∷ xs) = p x && all_of p xs

abbrev pub when_present {ℓ} : {A : Type ℓ} → (A → Bool) → Option A → Bool
when_present p none = true
when_present p (some a) = p a

abbrev pub is_positive : ℕ → Bool
is_positive zero = false
is_positive (suc n) = true

abbrev pub within_safe : ℕ → Bool
within_safe n = leb n max_safe_integer

abbrev pub is_positive_safe : ℕ → Bool
is_positive_safe n = within_safe n && is_positive n

abbrev pub valid_call : ToolCall → Bool
valid_call c = not (is_blank c.id) && (not (is_blank c.name) && is_json_record c.args)

abbrev pub has_native_type : Value → Bool
has_native_type type = is_text (text "thinking") type || is_text (text "redacted_thinking") type

abbrev pub valid_native : Value → Bool
valid_native (object fs) = is_json_record fs && has_native_type (prop (text "type") fs)
valid_native _ = false

abbrev pub valid_block : ContentBlock → Bool
valid_block (text_block s) = true
valid_block (image_ref id type width height description) =
    is_positive_decimal id
    && (not (is_blank type)
        && (when_present is_positive_safe width && when_present is_positive_safe height))

module _ (json_parses : Text → Bool) where
  abbrev pub refused_json : Text → Bool
  refused_json s =
      (starts_with (trim s) (text "{") || starts_with (trim s) (text "["))
      && not (json_parses (trim s))

  abbrev pub valid_content : ToolContent → Bool
  valid_content (plain s) = not (refused_json s)
  valid_content (blocks bs) = all_of valid_block bs

  abbrev pub valid_message : Message → Bool
  valid_message (user content) = true
  valid_message (assistant content calls native) =
      all_of valid_call calls && when_present (all_of valid_native) native
  valid_message (tool id content) = not (is_blank id) && valid_content content

abbrev pub valid_cursors : AttentionCursors → Bool
valid_cursors c =
    within_safe c.disclosed_through_row_id
    && (within_safe c.handled_through_row_id
        && when_present within_safe c.high_priority_through_row_id)

abbrev pub valid_mailboxes : List (Text × AttentionCursors) → Bool
valid_mailboxes [] = true
valid_mailboxes ((k, c) ∷ cs) = (is_mailbox_key k && valid_cursors c) && valid_mailboxes cs

abbrev pub valid_payload : CompactionPayload → Bool
valid_payload p =
    not (is_blank p.summary)
    && (when_present is_positive p.first_kept_entry_id
        && (within_safe p.tokens_before
            && (within_safe p.estimated_tokens_after
                && (when_present is_positive p.previous_compaction_entry_id
                    && (is_sorted p.mailbox_attention_state
                        && valid_mailboxes p.mailbox_attention_state)))))

-- What the ledger can hold: the ids are positive, names and summaries not blank, numbers safe
-- integers, JSON values and the mailboxes in the order of their keys.
abbrev pub valid_entry : (Text → Bool) → Entry → Bool
valid_entry json_parses (message_entry e) = is_positive e.id && valid_message json_parses e.message
valid_entry json_parses (compaction_entry e) = is_positive e.id && valid_payload e.payload

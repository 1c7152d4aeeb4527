-- ===== src/Ledger/Integrity.antt =====
-- The integrity check of a history (src/agent/snapshot-integrity.ts: validateMessages,
-- validateToolContent), on messages of their static type. `json_parses` says whether `JSON.parse`
-- accepts a text. Errors and warnings carry the positions of the source's texts.
pub mod Clean
pub mod Laws
use qq_bot_v.Prelude.{
  ℕ, zero, suc, ◌+◌, Bool, true, false, ◌&&◌, ◌||◌, not, Option, none, some, List, [], ◌∷◌, ◌++◌,
  ◌==◌, nat_eq, text_eq, Text, text, trim, is_blank, starts_with, is_empty, is_positive_decimal,
  leb, has, drop, get_elem?, length, if◌then◌else◌,
}
use qq_bot_v.Ledger.Types.{
  Message, user, assistant, tool, ToolCall, ToolContent, plain, blocks, ContentBlock, text_block,
  image_ref,
}

pub data IntegrityError : Type 0 where
  blank_call_id blank_call_name : ℕ → ℕ → IntegrityError
  duplicate_call missing_result duplicate_result orphan_result : ℕ → Text → IntegrityError
  non_adjacent_result : ℕ → Text → IntegrityError
  blank_result_id invalid_tool_json : ℕ → IntegrityError
  bad_media_id blank_media_type : ℕ → ℕ → IntegrityError

pub record Validation : Type 0 where
  pub expected : List Text
  pub consumed : List Text
  pub errors : List IntegrityError
  pub warnings : List ℕ

abbrev pub push_error : IntegrityError → Validation → Validation
push_error e v = record v { errors = v.errors ++ e ∷ [] }

abbrev pub error_if : Bool → IntegrityError → Validation → Validation
error_if true e v = push_error e v
error_if false e v = v

module _ (json_parses : Text → Bool) where
  validate_blocks : ℕ → ℕ → List ContentBlock → Validation → Validation
  validate_blocks index block [] v = v
  validate_blocks index block (text_block s ∷ bs) v = validate_blocks index (block + 1) bs v
  validate_blocks index block (image_ref id type w h d ∷ bs) v =
      validate_blocks index (block + 1) bs (
        error_if (is_blank type) (blank_media_type index block)
          (error_if (not (is_positive_decimal id)) (bad_media_id index block) v))

  validate_tool_content : ToolContent → ℕ → Validation → Validation
  unfolding validate_blocks
  validate_tool_content (plain s) index v =
      let trimmed = trim s in
      error_if
        ((starts_with trimmed (text "{") || starts_with trimmed (text "["))
          && not (json_parses trimmed))
        (invalid_tool_json index) v
  validate_tool_content (blocks bs) index v = validate_blocks index 0 bs v

  -- The result of a call with a good id: `message` is the one at `tool_index`.
  check_result : Text → ℕ → Option Message → Validation → Validation
  unfolding validate_tool_content
  check_result id tool_index (some (tool result_id content)) v =
      if not (result_id == id)
      then push_error (missing_result tool_index id) v
      else if has id v.consumed
      then push_error (duplicate_result tool_index id) v
      else validate_tool_content content tool_index (record v { consumed = id ∷ v.consumed })
  check_result id tool_index _ v = push_error (missing_result tool_index id) v

  pub check_call : ToolCall → ℕ → ℕ → Option Message → Validation → Validation
  unfolding check_result
  check_call call index offset message v =
      let named = error_if (is_blank call.name) (blank_call_name index offset) v in
      let unique = error_if (has call.id named.expected) (duplicate_call index call.id) named in
      if is_blank call.id
      then push_error (blank_call_id index offset) v
      else check_result call.id (index + offset + 1) message
          (record unique { expected = call.id ∷ unique.expected })

  check_calls : List ToolCall → ℕ → ℕ → List Message → Validation → Validation
  unfolding check_call
  check_calls [] index offset rest v = v
  check_calls (c ∷ cs) index offset rest v =
      check_calls cs index (offset + 1) rest (check_call c index offset (get_elem? rest offset) v)

  pub check_stray_result : Text → ToolContent → ℕ → Validation → Validation
  unfolding validate_tool_content
  check_stray_result id content index v = validate_tool_content content index (
      if is_blank id
      then push_error (blank_result_id index) v
      else if not (has id v.expected)
      then push_error (orphan_result index id) v
      else if has id v.consumed
      then push_error (duplicate_result index id) v
      else push_error (non_adjacent_result index id) (record v { consumed = id ∷ v.consumed }))

  -- Each round takes a message at least, so the number of messages is fuel enough.
  validate_from : ℕ → ℕ → List Message → Validation → Validation
  unfolding check_calls check_stray_result
  validate_from fuel index [] v = v
  validate_from zero index (m ∷ rest) v = v
  validate_from (suc fuel) index (user content ∷ rest) v = validate_from fuel (index + 1) rest v
  validate_from (suc fuel) index (tool id content ∷ rest) v =
      validate_from fuel (index + 1) rest (check_stray_result id content index v)
  validate_from (suc fuel) index (assistant content calls native ∷ rest) v =
      validate_from fuel (index + 1 + length calls) (drop (length calls) rest) (
        check_calls calls index 0 rest
          (if is_empty content then v else record v { warnings = v.warnings ++ index ∷ [] }))

  unfoldable pub validate_messages : List Message → Validation
  unfolding validate_from
  validate_messages messages =
      validate_from (length messages) 0 messages
        (record { expected = []; consumed = []; errors = []; warnings = [] })

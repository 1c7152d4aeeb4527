-- ===== src/Ledger/Parse/Messages.antt =====
-- Stored messages (src/agent/agent-ledger-projection.ts: parseMessagePayload, parseDurableAgentMessage,
-- parseToolResultContent). `json_parses` says whether `JSON.parse` accepts a text.
use qq_bot_v.Prelude.{
  Bool, not, ◌&&◌, ◌||◌, [], ◌∷◌, nat_eq, text_eq, Text, text, trim, starts_with,
  is_positive_decimal, if◌then◌else◌, ok, ◌>>=◌, ◌>>◌,
}
use qq_bot_v.Prelude.Values.{Value, string, object, Fields, prop, is_text}
use qq_bot_v.Ledger.Types.{
  Message, user, assistant, tool, ToolCall, ToolContent, plain, blocks, ContentBlock, text_block,
  image_ref,
}
use qq_bot_v.Ledger.Json.{
  Place, Parsed, reject, at_key, demand, unsupported_version, not_an_array, bad_role,
  bad_block_type, bad_media_id, bad_tool_content, invalid_json, require_record, require_exact_keys,
  require_non_empty_string, require_string, require_positive_safe_integer, clone_json_object,
}
use qq_bot_v.Ledger.Json.{member, member_when_present, is_version, parse_array}

unfoldable pub parse_tool_call : Value → Place → Parsed ToolCall
parse_tool_call value place = do
  call ← require_record value place
  require_exact_keys call (text "id" ∷ text "name" ∷ text "args" ∷ []) [] place
  id ← member call place (text "id") require_non_empty_string
  name ← member call place (text "name") require_non_empty_string
  args ← member call place (text "args") clone_json_object
  ok (record { id = id; name = name; args = args })

unfoldable pub parse_native_block : Value → Place → Parsed Value
parse_native_block value place = do
  cloned ← clone_json_object value place
  let type = prop (text "type") cloned
  demand (is_text (text "thinking") type || is_text (text "redacted_thinking") type)
      (at_key place (text "type")) bad_block_type
  ok (object cloned)

abbrev pub require_media_id : Value → Place → Parsed Text
require_media_id (string s) place =
    if is_positive_decimal s then ok s else reject place bad_media_id
require_media_id _ place = reject place bad_media_id

abbrev pub parse_text_block : Fields → Place → Parsed ContentBlock
parse_text_block block place = do
  require_exact_keys block (text "type" ∷ text "text" ∷ []) [] place
  s ← member block place (text "text") require_string
  ok (text_block s)

abbrev pub parse_image_ref : Fields → Place → Parsed ContentBlock
parse_image_ref block place = do
  require_exact_keys block (text "type" ∷ text "mediaId" ∷ text "mediaType" ∷ [])
      (text "width" ∷ text "height" ∷ text "description" ∷ []) place
  media_id ← member block place (text "mediaId") require_media_id
  media_type ← member block place (text "mediaType") require_non_empty_string
  width ← member_when_present block place (text "width") require_positive_safe_integer
  height ← member_when_present block place (text "height") require_positive_safe_integer
  description ← member_when_present block place (text "description") require_string
  ok (image_ref media_id media_type width height description)

unfoldable pub parse_content_block : Value → Place → Parsed ContentBlock
parse_content_block value place = do
  block ← require_record value place
  let type = prop (text "type") block
  if is_text (text "text") type
      then parse_text_block block place
      else if is_text (text "image_ref") type
      then parse_image_ref block place
      else reject (at_key place (text "type")) bad_block_type

module _ (json_parses : Text → Bool) where
  unfoldable pub parse_tool_result_content : Value → Place → Parsed ToolContent
  unfolding parse_content_block
  parse_tool_result_content (string s) place =
      let trimmed = trim s in
      if (starts_with trimmed (text "{") || starts_with trimmed (text "["))
        && not (json_parses trimmed)
      then reject place invalid_json
      else ok (plain s)
  parse_tool_result_content value place =
      parse_array parse_content_block bad_tool_content value place >>= λ bs. ok (blocks bs)

  abbrev pub parse_user : Fields → Place → Parsed Message
  parse_user message place = do
    require_exact_keys message (text "role" ∷ text "content" ∷ []) [] place
    content ← member message place (text "content") require_string
    ok (user content)

  abbrev pub parse_assistant : Fields → Place → Parsed Message
  parse_assistant message place = do
    require_exact_keys message (text "role" ∷ text "content" ∷ text "toolCalls" ∷ [])
        (text "nativeBlocks" ∷ []) place
    content ← member message place (text "content") require_string
    calls ← member message place (text "toolCalls") (parse_array parse_tool_call not_an_array)
    native ←
        member_when_present message place (text "nativeBlocks")
          (parse_array parse_native_block not_an_array)
    ok (assistant content calls native)

  abbrev pub parse_tool : Fields → Place → Parsed Message
  parse_tool message place = do
    require_exact_keys message (text "role" ∷ text "toolCallId" ∷ text "content" ∷ []) [] place
    id ← member message place (text "toolCallId") require_non_empty_string
    content ← member message place (text "content") parse_tool_result_content
    ok (tool id content)

  unfoldable pub parse_durable_agent_message : Value → Place → Parsed Message
  parse_durable_agent_message value place = do
    message ← require_record value place
    let role = prop (text "role") message
    if is_text (text "user") role
        then parse_user message place
        else if is_text (text "assistant") role
        then parse_assistant message place
        else if is_text (text "tool") role
        then parse_tool message place
        else reject (at_key place (text "role")) bad_role

  unfoldable pub parse_message_payload : Value → Place → Parsed Message
  parse_message_payload value place = do
    payload ← require_record value place
    require_exact_keys payload (text "schemaVersion" ∷ text "message" ∷ []) [] place
    demand (is_version 1 (prop (text "schemaVersion") payload)) place unsupported_version
    member payload place (text "message") parse_durable_agent_message

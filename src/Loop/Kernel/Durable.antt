-- ===== src/Loop/Kernel/Durable.antt =====
-- Tool results as the ledger keeps them (src/agent/durable-agent-message.ts: toDurableAgentMessage
-- of a tool message). `persist` keeps the bytes of an image and gives the block that refers to
-- them; `parse_json` is `JSON.parse`, none where it throws.
use qq_bot_v.Prelude.{
  ℕ, Option, none, some, List, [], ◌∷◌, Text, text, trim, is_empty, take, text_eq, if◌then◌else◌,
  Result, ok, ◌>>=◌,
}
use qq_bot_v.Prelude.Values.{Value, string, Fields, as_record, prop}
use qq_bot_v.Ledger.Types.{
  Message, tool, ToolContent, plain, blocks, ContentBlock, text_block, image_ref,
}

-- `ToolResultContentBlock`: an image has its media type and its data.
pub data LiveBlock : Type 0 where
  live_text : Text → LiveBlock
  live_image : Text → Text → LiveBlock
  live_ref : Text → Text → Option ℕ → Option ℕ → Option Text → LiveBlock

pub data LiveContent : Type 0 where
  live_plain : Text → LiveContent
  live_blocks : List LiveBlock → LiveContent

abbrev short : Text → Text
short s = take 2000 s

abbrev text_of_description : Value → Option Text
text_of_description (string d) = if is_empty (trim d) then none else some (short (trim d))
text_of_description _ = none

abbrev described : Text → Option Fields → Text
described s none = short s
described s (some fs) = elim (text_of_description (prop (text "description") fs)) [
  | none ↦ short s
  | some d ↦ d
]

abbrev parsed_record : Option Value → Option Fields
parsed_record none = none
parsed_record (some v) = as_record v

module _ (parse_json : Text → Option Value) where
  -- The description of the first text that is not blank.
  abbrev pub find_persisted_description : List LiveBlock → Option Text
  find_persisted_description [] = none
  find_persisted_description (live_text s ∷ bs) =
      let rest = find_persisted_description bs in
      if is_empty (trim s)
      then rest
      else some (described (trim s) (parsed_record (parse_json (trim s))))
  find_persisted_description (_ ∷ bs) = find_persisted_description bs

module _ {E : Type 0} (persist : Text → Text → Option Text → Result E ContentBlock) where
  abbrev durable_block : Option Text → LiveBlock → Result E ContentBlock
  durable_block description (live_text s) = ok (text_block s)
  durable_block description (live_image type bytes) = persist type bytes description
  durable_block description (live_ref id type w h d) = ok (image_ref id type w h d)

  abbrev durable_blocks : Option Text → List LiveBlock → Result E (List ContentBlock)
  durable_blocks description [] = ok []
  durable_blocks description (b ∷ bs) = do
    kept ← durable_block description b
    rest ← durable_blocks description bs
    ok (kept ∷ rest)

  unfoldable pub to_durable_content : (Text → Option Value) → LiveContent → Result E ToolContent
  to_durable_content parse_json (live_plain s) = ok (plain s)
  to_durable_content parse_json (live_blocks bs) =
      durable_blocks (find_persisted_description parse_json bs) bs >>= λ kept. ok (blocks kept)

  unfoldable pub to_durable_agent_message :
      (Text → Option Value) → Text → LiveContent → Result E Message
  unfolding to_durable_content
  to_durable_agent_message parse_json id content =
      to_durable_content parse_json content >>= λ kept. ok (tool id kept)

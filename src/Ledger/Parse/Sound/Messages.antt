-- ===== src/Ledger/Parse/Sound/Messages.antt =====
-- Every message that is parsed is one that the ledger can hold.
use qq_bot_v.Prelude.{
  ◌≡◌, refl, inl, inr, Bool, true, false, [], ◌∷◌, text_eq, Text, text, ok, ◌>>=◌, >>=-eq-ok,
  ok-injective, if◌then◌else◌, Bool-cases,
}
use mathlib.Core.Path.{subst}
use qq_bot_v.Prelude.Values.{Value, string, Fields, prop, is_text}
use qq_bot_v.Ledger.Types.{ToolContent, plain, blocks}
use qq_bot_v.Ledger.Json.{
  Parsed, require_record, require_string, require_exact_keys, require_non_empty_string,
  require_positive_safe_integer, member, member_when_present, parse_array, reject, not_an_array,
  bad_tool_content, invalid_json, Place,
}
use qq_bot_v.Ledger.Json.Laws.Copies.{both_true}
use qq_bot_v.Ledger.Parse.Messages.{
  parse_tool_call, parse_native_block, parse_content_block, parse_text_block, parse_image_ref,
  require_media_id, parse_tool_result_content, parse_user, parse_assistant, parse_tool,
  parse_durable_agent_message,
}
use qq_bot_v.Ledger.Parse.Stored.{
  all_of, is_positive_safe, valid_call, valid_native, valid_block, refused_json, valid_content,
  valid_message,
}
use qq_bot_v.Ledger.Parse.Sound.{
  Yields, require_non_empty_string-not_blank, parse_tool_call-valid_call, parse_array-valid,
  member_when_present-valid, parse_native_block-valid_native, positive_safe-valid,
  require_media_id-is_positive_decimal,
}

parse_image_ref-valid_block :
    (fs : Fields) (place : Place) → Yields valid_block (parse_image_ref fs place)
parse_image_ref-valid_block fs place b h =
    let (_, _, h1) =
      >>=-eq-ok
        (require_exact_keys fs (text "type" ∷ text "mediaId" ∷ text "mediaType" ∷ [])
          (text "width" ∷ text "height" ∷ text "description" ∷ []) place)
        _ h in
    let (id, i, h2) = >>=-eq-ok (member fs place (text "mediaId") require_media_id) _ h1 in
    let (type, t, h3) =
      >>=-eq-ok (member fs place (text "mediaType") require_non_empty_string) _ h2 in
    let (width, w, h4) =
      >>=-eq-ok (member_when_present fs place (text "width") require_positive_safe_integer) _ h3 in
    let (height, k, h5) =
      >>=-eq-ok (member_when_present fs place (text "height") require_positive_safe_integer) _ h4 in
    let (description, _, h6) =
      >>=-eq-ok (member_when_present fs place (text "description") require_string) _ h5 in
    let sized =
      member_when_present-valid require_positive_safe_integer is_positive_safe positive_safe-valid
        fs place in
    subst (λ b. valid_block b ≡ true) (ok-injective h6)
      (both_true (require_media_id-is_positive_decimal (prop (text "mediaId") fs) _ id i) (
        both_true (require_non_empty_string-not_blank _ _ type t)
          (both_true (sized (text "width") width w) (sized (text "height") height k))))

parse_text_block-valid_block :
    (fs : Fields) (place : Place) → Yields valid_block (parse_text_block fs place)
parse_text_block-valid_block fs place b h =
    let (_, _, h1) =
      >>=-eq-ok (require_exact_keys fs (text "type" ∷ text "text" ∷ []) [] place) _ h in
    let (s, _, h2) = >>=-eq-ok (member fs place (text "text") require_string) _ h1 in
    subst (λ b. valid_block b ≡ true) (ok-injective h2) refl

-- Of two results, the one taken.
pub if-Yields {ℓ} :
    {A : Type ℓ} (valid : A → Bool) (test : Bool) (one other : Parsed A)
    → Yields valid one
    → Yields valid other
    → Yields valid (if test then one else other)
if-Yields valid true one other h k = h
if-Yields valid false one other h k = k

parse_content_block-valid_block :
    (v : Value) (place : Place) → Yields valid_block (parse_content_block v place)
unfolding parse_content_block
parse_content_block-valid_block v place b h =
    let (fs, _, h1) = >>=-eq-ok (require_record v place) _ h in
    let type = prop (text "type") fs in
    if-Yields valid_block (is_text (text "text") type) _ _ (parse_text_block-valid_block fs place)
      (if-Yields valid_block (is_text (text "image_ref") type) _ _
        (parse_image_ref-valid_block fs place) (λ a e. cc))
      b h1

module _ (json_parses : Text → Bool) where
  array_content-valid :
      (v : Value) (place : Place)
      → Yields
          (valid_content json_parses)
          (parse_array parse_content_block bad_tool_content v place >>= λ bs. ok (blocks bs))
  array_content-valid v place c h =
      let (bs, got, h1) =
        >>=-eq-ok (parse_array parse_content_block bad_tool_content v place) _ h in
      subst (λ c. valid_content json_parses c ≡ true) (ok-injective h1)
        (parse_array-valid parse_content_block valid_block parse_content_block-valid_block
          bad_tool_content v place bs got)

  parse_tool_result_content-valid_content :
      (v : Value) (place : Place)
      → Yields (valid_content json_parses) (parse_tool_result_content json_parses v place)
  unfolding parse_tool_result_content
  parse_tool_result_content-valid_content (string s) place c h =
      elim (Bool-cases (refused_json json_parses s)) [
        | inl refused ↦ absurd (
            let h' : ◌≡◌ {A = Parsed ToolContent} (reject place invalid_json) (ok c) =
              rw refused at h in
            let bad : ⊥ = cc in bad)
        | inr good ↦
            let h' : ◌≡◌ {A = Parsed ToolContent} (ok (plain s)) (ok c) = rw good at h in
            subst (λ c. valid_content json_parses c ≡ true) (ok-injective h') (rw good refl)
      ]
  parse_tool_result_content-valid_content v place c h = array_content-valid v place c h

  parse_user-valid_message :
      (fs : Fields) (place : Place)
      → Yields (valid_message json_parses) (parse_user json_parses fs place)
  parse_user-valid_message fs place m h =
      let (_, _, h1) =
        >>=-eq-ok (require_exact_keys fs (text "role" ∷ text "content" ∷ []) [] place) _ h in
      let (s, _, h2) = >>=-eq-ok (member fs place (text "content") require_string) _ h1 in
      subst (λ m. valid_message json_parses m ≡ true) (ok-injective h2) refl

  parse_assistant-valid_message :
      (fs : Fields) (place : Place)
      → Yields (valid_message json_parses) (parse_assistant json_parses fs place)
  parse_assistant-valid_message fs place m h =
      let calls_of = parse_array parse_tool_call not_an_array in
      let blocks_of = parse_array parse_native_block not_an_array in
      let (_, _, h1) =
        >>=-eq-ok
          (require_exact_keys fs (text "role" ∷ text "content" ∷ text "toolCalls" ∷ [])
            (text "nativeBlocks" ∷ []) place)
          _ h in
      let (s, _, h2) = >>=-eq-ok (member fs place (text "content") require_string) _ h1 in
      let (calls, c, h3) = >>=-eq-ok (member fs place (text "toolCalls") calls_of) _ h2 in
      let (native, n, h4) =
        >>=-eq-ok (member_when_present fs place (text "nativeBlocks") blocks_of) _ h3 in
      subst (λ m. valid_message json_parses m ≡ true) (ok-injective h4)
        (both_true
          (parse_array-valid parse_tool_call valid_call parse_tool_call-valid_call not_an_array _ _
            calls c)
          (member_when_present-valid blocks_of (all_of valid_native)
            (parse_array-valid parse_native_block valid_native parse_native_block-valid_native
              not_an_array)
            fs place (text "nativeBlocks") native n))

  parse_tool-valid_message :
      (fs : Fields) (place : Place)
      → Yields (valid_message json_parses) (parse_tool json_parses fs place)
  parse_tool-valid_message fs place m h =
      let (_, _, h1) =
        >>=-eq-ok
          (require_exact_keys fs (text "role" ∷ text "toolCallId" ∷ text "content" ∷ []) [] place) _
          h in
      let (id, i, h2) =
        >>=-eq-ok (member fs place (text "toolCallId") require_non_empty_string) _ h1 in
      let (content, c, h3) =
        >>=-eq-ok (member fs place (text "content") (parse_tool_result_content json_parses)) _ h2 in
      subst (λ m. valid_message json_parses m ≡ true) (ok-injective h3)
        (both_true (require_non_empty_string-not_blank _ _ id i)
          (parse_tool_result_content-valid_content _ _ content c))

  pub parse_durable_agent_message-valid_message :
      (v : Value) (place : Place)
      → Yields (valid_message json_parses) (parse_durable_agent_message json_parses v place)
  unfolding parse_durable_agent_message
  parse_durable_agent_message-valid_message v place m h =
      let (fs, _, h1) = >>=-eq-ok (require_record v place) _ h in
      let role = prop (text "role") fs in
      let valid = valid_message json_parses in
      if-Yields valid (is_text (text "user") role) _ _ (parse_user-valid_message fs place)
        (if-Yields valid (is_text (text "assistant") role) _ _
          (parse_assistant-valid_message fs place)
          (if-Yields valid (is_text (text "tool") role) _ _ (parse_tool-valid_message fs place)
            (λ a e. cc)))
        m h1

-- ===== src/Ledger/Integrity/Clean.antt =====
-- What a check that records no error has seen.
use qq_bot_v.Prelude.{
  ℕ, ◌+◌, ◌≡◌, refl, ap, inl, inr, Bool, true, false, not, Option, none, some, List, [], ◌∷◌, ◌++◌,
  arith, ◌==◌, text_eq, text_beq_iff, Text, is_positive_decimal, is_blank, has, Bool-cases,
}
use qq_bot_v.Ledger.Types.{
  Message, user, assistant, tool, ToolCall, ToolContent, plain, blocks, ContentBlock, text_block,
  image_ref,
}
use qq_bot_v.Ledger.Integrity.{
  IntegrityError, bad_media_id, blank_media_type, blank_call_id, invalid_tool_json, blank_result_id,
  orphan_result, duplicate_result, non_adjacent_result, blank_call_name, duplicate_call, Validation,
  error_if, validate_blocks, validate_tool_content, check_result, check_call, check_stray_result,
}

-- No error has been recorded.
abbrev pub IsClean : Validation → Type 0
IsClean v = v.errors ≡ []

append_one_ne : {A : Type 0} (xs : List A) (x : A) → ¬ (xs ++ x ∷ [] ≡ [])
append_one_ne [] x h = cc
append_one_ne (y ∷ xs) x h = cc

error_if-IsClean :
    (b : Bool) (e : IntegrityError) (v : Validation)
    → IsClean (error_if b e v)
    → (b ≡ false) × IsClean v
error_if-IsClean true e v h = absurd (append_one_ne v.errors e h)
error_if-IsClean false e v h = (refl, h)

module _ (json_parses : Text → Bool) where
  validate_blocks-IsClean :
      (index block : ℕ) (bs : List ContentBlock) (v : Validation)
      → IsClean (validate_blocks json_parses index block bs v)
      → IsClean v
  unfolding validate_blocks
  validate_blocks-IsClean index block [] v h = h
  validate_blocks-IsClean index block (text_block s ∷ bs) v h =
      validate_blocks-IsClean index (block + 1) bs v h
  validate_blocks-IsClean index block (image_ref id type w ht d ∷ bs) v h =
      let inner = validate_blocks-IsClean index (block + 1) bs _ h in
      let bad_id = not (is_positive_decimal id) in
      let outer =
        error_if-IsClean (is_blank type) (blank_media_type index block)
          (error_if bad_id (bad_media_id index block) v) inner in
      (error_if-IsClean bad_id (bad_media_id index block) v outer.1).1

  validate_tool_content-IsClean :
      (c : ToolContent) (index : ℕ) (v : Validation)
      → IsClean (validate_tool_content json_parses c index v)
      → IsClean v
  unfolding validate_tool_content
  validate_tool_content-IsClean (plain s) index v h =
      (error_if-IsClean _ (invalid_tool_json index) v h).1
  validate_tool_content-IsClean (blocks bs) index v h = validate_blocks-IsClean index 0 bs v h

  check_result-IsClean :
      (id : Text) (tool_index : ℕ) (m : Option Message) (v : Validation)
      → IsClean (check_result json_parses id tool_index m v)
      → IsClean v × ((content : ToolContent) × (m ≡ some (tool id content)))
  unfolding check_result
  check_result-IsClean id i none v h = absurd (append_one_ne v.errors _ h)
  check_result-IsClean id i (some (user c)) v h = absurd (append_one_ne v.errors _ h)
  check_result-IsClean id i (some (assistant c cs n)) v h = absurd (append_one_ne v.errors _ h)
  check_result-IsClean id i (some (tool rid content)) v h = elim (Bool-cases (rid == id)) [
    | inr other ↦ absurd (append_one_ne v.errors _ (rw other at h))
    | inl same ↦ elim (Bool-cases (has id v.consumed)) [
      | inl again ↦ absurd (append_one_ne v.errors _ (rw (same, again) at h))
      | inr fresh ↦ (
        validate_tool_content-IsClean content i _ (rw (same, fresh) at h),
        (content, ap (λ t. some (tool t content)) ((text_beq_iff rid id).0 same)),
      )
    ]
  ]

  pub check_call-IsClean :
      (call : ToolCall) (index offset : ℕ) (m : Option Message) (v : Validation)
      → IsClean (check_call json_parses call index offset m v)
      → IsClean v × ((content : ToolContent) × (m ≡ some (tool call.id content)))
  unfolding check_call
  check_call-IsClean call index offset m v h = elim (Bool-cases (is_blank call.id)) [
    | inl blank ↦ absurd (append_one_ne v.errors (blank_call_id index offset) (rw blank at h))
    | inr named ↦
        let named_v = error_if (is_blank call.name) (blank_call_name index offset) v in
        let again = has call.id named_v.expected in
        let (clean, result) =
          check_result-IsClean call.id (index + offset + 1) m
            (let u = error_if again (duplicate_call index call.id) named_v in
              record u { expected = call.id ∷ u.expected })
            (rw named at h) in
        let unique = error_if-IsClean again (duplicate_call index call.id) named_v clean in
        (
          (error_if-IsClean (is_blank call.name) (blank_call_name index offset) v unique.1).1,
          result,
        )
  ]

  pub check_stray_result-dirty :
      (id : Text) (c : ToolContent) (index : ℕ) (v : Validation)
      → ¬ IsClean (check_stray_result json_parses id c index v)
  unfolding check_stray_result
  check_stray_result-dirty id c index v h =
      let clean = validate_tool_content-IsClean c index _ h in
      ground (
        arith,
        append_one_ne v.errors (blank_result_id index),
        append_one_ne v.errors (orphan_result index id),
        append_one_ne v.errors (duplicate_result index id),
        append_one_ne v.errors (non_adjacent_result index id),
      )

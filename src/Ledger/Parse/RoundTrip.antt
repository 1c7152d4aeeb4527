-- ===== src/Ledger/Parse/RoundTrip.antt =====
-- Valid entries are parsed back from what they are stored as.
pub mod Entries
pub mod State
use qq_bot_v.Prelude.{
  ℕ, zero, suc, ◌+◌, ◌≡◌, refl, ap, ◌∙◌, inl, inr, Bool, true, false, not, ◌&&◌, ◌||◌, Option, none,
  some, List, [], ◌∷◌, map, text_eq, Text, text, text_beq, trim, starts_with, is_blank,
  is_positive_decimal, leb, ok, err, ◌>>=◌, if◌then◌else◌, arith, Bool-cases,
}
use qq_bot_v.Prelude.Values.{
  Value, string, array, object, Items, prop, max_safe_integer, non_negative_safe,
}
use qq_bot_v.Ledger.Types.{
  Message, user, assistant, tool, ToolCall, ToolContent, plain, blocks, ContentBlock, text_block,
  image_ref,
}
use qq_bot_v.Ledger.Json.{
  Place, Problem, Parsed, at_index, parse_items, parse_array, require_exact_keys,
  require_positive_safe_integer, not_an_array, bad_tool_content,
}
use qq_bot_v.Ledger.Json.Laws.{and_true, is_json_record, clone_json_record_self}
use qq_bot_v.Ledger.Parse.Messages.{
  parse_tool_call, parse_native_block, parse_content_block, parse_tool_result_content,
  parse_durable_agent_message,
}
use qq_bot_v.Ledger.Parse.Stored.{
  items_of, array_of, stored_number, stored_call, stored_block, stored_content, stored_message,
  all_of, when_present, within_safe, is_positive, is_positive_safe, valid_call, has_native_type,
  valid_native, valid_block, refused_json, valid_content, valid_message,
}

pub not-true : {b : Bool} → not b ≡ true → b ≡ false
not-true {b = true} h = cc
not-true {b = false} h = refl

module _ {ℓ} {A : Type ℓ} (parse : Value → Place → Parsed A) (store : A → Value) (valid : A → Bool)
    (back : (a : A) (place : Place) → valid a ≡ true → parse (store a) place ≡ ok a) where
  parse_items-stored :
      (xs : List A) (i : ℕ) (place : Place)
      → all_of valid xs ≡ true
      → parse_items parse (items_of (map store xs)) i place ≡ ok xs
  parse_items-stored [] i place h = refl
  parse_items-stored (x ∷ xs) i place h =
      let (first, others) = and_true (valid x) (all_of valid xs) h in
      rw (back x (at_index place i) first, parse_items-stored xs (i + 1) place others) refl

  pub parse_array-stored :
      (problem : Problem) (xs : List A) (place : Place)
      → all_of valid xs ≡ true
      → parse_array parse problem (array_of store xs) place ≡ ok xs
  parse_array-stored problem xs place h = parse_items-stored xs 0 place h

parse_tool_call-stored :
    (c : ToolCall) (place : Place)
    → valid_call c ≡ true
    → parse_tool_call (stored_call c) place ≡ ok c
unfolding parse_tool_call require_exact_keys text_beq
parse_tool_call-stored c place h =
    let (id, more) =
      and_true (not (is_blank c.id)) (not (is_blank c.name) && is_json_record c.args) h in
    let (name, args) = and_true (not (is_blank c.name)) (is_json_record c.args) more in
    rw (not-true id, not-true name, clone_json_record_self c.args _ args) refl

parse_native_block-stored :
    (v : Value) (place : Place) → valid_native v ≡ true → parse_native_block v place ≡ ok v
unfolding parse_native_block
parse_native_block-stored (object fs) place h =
    let (json, typed) = and_true (is_json_record fs) (has_native_type (prop (text "type") fs)) h in
    rw (clone_json_record_self fs place json, typed) refl
parse_native_block-stored _ place h = cc

pub safe-stored : (n : ℕ) → within_safe n ≡ true → non_negative_safe (stored_number n) ≡ some n
unfolding non_negative_safe
safe-stored n h = rw (non_negative_safe, h) refl

nonzero-stored :
    (n : ℕ) (place : Place)
    → is_positive_safe n ≡ true
    → require_positive_safe_integer (stored_number n) place ≡ ok n
nonzero-stored zero place h = cc
nonzero-stored (suc n) place h =
    rw (safe-stored (suc n) (and_true (within_safe (suc n)) true h).0) refl

image_ref-stored :
    (id type : Text) (width height : Option ℕ) (description : Option Text) (place : Place)
    → valid_block (image_ref id type width height description) ≡ true
    → parse_content_block (stored_block (image_ref id type width height description)) place
      ≡ ok (image_ref id type width height description)
unfolding parse_content_block require_exact_keys text_beq
image_ref-stored id type width height description place h =
    let sizes = when_present is_positive_safe width && when_present is_positive_safe height in
    let (digits, more) = and_true (is_positive_decimal id) (not (is_blank type) && sizes) h in
    let (named, sized) = and_true (not (is_blank type)) sizes more in
    let (wide, high) =
      and_true (when_present is_positive_safe width) (when_present is_positive_safe height) sized in
    sizes_stored width height description digits (not-true named) wide high
  where
    sizes_stored :
        (width height : Option ℕ) (description : Option Text)
        → is_positive_decimal id ≡ true
        → is_blank type ≡ false
        → when_present is_positive_safe width ≡ true
        → when_present is_positive_safe height ≡ true
        → parse_content_block (stored_block (image_ref id type width height description)) place
          ≡ ok (image_ref id type width height description)
    sizes_stored none none none d b w k = rw (d, b) refl
    sizes_stored none none (some s) d b w k = rw (d, b) refl
    sizes_stored (some m) none none d b w k = rw (d, b, nonzero-stored m _ w) refl
    sizes_stored (some m) none (some s) d b w k = rw (d, b, nonzero-stored m _ w) refl
    sizes_stored none (some n) none d b w k = rw (d, b, nonzero-stored n _ k) refl
    sizes_stored none (some n) (some s) d b w k = rw (d, b, nonzero-stored n _ k) refl
    sizes_stored (some m) (some n) none d b w k =
        rw (d, b, nonzero-stored m _ w, nonzero-stored n _ k) refl
    sizes_stored (some m) (some n) (some s) d b w k =
        rw (d, b, nonzero-stored m _ w, nonzero-stored n _ k) refl

parse_content_block-stored :
    (b : ContentBlock) (place : Place)
    → valid_block b ≡ true
    → parse_content_block (stored_block b) place ≡ ok b
unfolding parse_content_block require_exact_keys text_beq
parse_content_block-stored (text_block s) place h = refl
parse_content_block-stored (image_ref id type width height description) place h =
    image_ref-stored id type width height description place h

module _ (json_parses : Text → Bool) where
  parse_tool_result_content-stored :
      (c : ToolContent) (place : Place)
      → valid_content json_parses c ≡ true
      → parse_tool_result_content json_parses (stored_content c) place ≡ ok c
  unfolding parse_tool_result_content
  parse_tool_result_content-stored (plain s) place h = rw (not-true h) refl
  parse_tool_result_content-stored (blocks bs) place h =
      rw
        (parse_array-stored parse_content_block stored_block valid_block parse_content_block-stored
          bad_tool_content bs place h)
        refl

  pub parse_durable_agent_message-stored :
      (m : Message) (place : Place)
      → valid_message json_parses m ≡ true
      → parse_durable_agent_message json_parses (stored_message m) place ≡ ok m
  unfolding parse_durable_agent_message require_exact_keys text_beq
  parse_durable_agent_message-stored (user content) place h = refl
  parse_durable_agent_message-stored (assistant content calls none) place h =
      rw
        (parse_array-stored parse_tool_call stored_call valid_call parse_tool_call-stored
          not_an_array calls _ (and_true (all_of valid_call calls) true h).0)
        refl
  parse_durable_agent_message-stored (assistant content calls (some native)) place h =
      let (called, thought) = and_true (all_of valid_call calls) (all_of valid_native native) h in
      rw
        (
          parse_array-stored parse_tool_call stored_call valid_call parse_tool_call-stored
              not_an_array calls _ called,
          parse_array-stored parse_native_block (λ v. v) valid_native parse_native_block-stored
              not_an_array native _ thought,
        )
        refl
  parse_durable_agent_message-stored (tool id content) place h =
      let (named, good) = and_true (not (is_blank id)) (valid_content json_parses content) h in
      rw (not-true named, parse_tool_result_content-stored content _ good) refl

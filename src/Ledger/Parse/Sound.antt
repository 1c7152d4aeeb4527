-- ===== src/Ledger/Parse/Sound.antt =====
-- What the parts of a message are parsed to is what the ledger can hold.
pub mod Messages
pub mod Compactions
pub mod Entries
use qq_bot_v.Prelude.{
  ℕ, zero, suc, ◌+◌, ◌≡◌, refl, ap, ◌∙◌, inl, inr, Bool, true, false, not, ◌&&◌, ◌||◌, Option, none,
  some, List, [], ◌∷◌, text_eq, Text, text, is_blank, is_positive_decimal, leb, Result, ok, err,
  ◌>>=◌, >>=-eq-ok, ok-injective, if◌then◌else◌, arith, Bool-cases,
}
use mathlib.Core.Path.{subst, sym}
use qq_bot_v.Prelude.Values.{
  Value, undefined, null, boolean, number, Number, natural, string, bigint, negative_bigint, date,
  array, object, Fields, Items, nil, cons, prop, max_safe_integer, non_negative_safe, is_text,
}
use qq_bot_v.Ledger.Types.{
  Message, user, assistant, tool, ToolCall, ToolContent, plain, blocks, ContentBlock, text_block,
  image_ref,
}
use qq_bot_v.Ledger.Json.{
  Problem, Parsed, ParseError, at_key, at_index, demand, demand_some, as_string, as_array,
  require_record, require_string, require_exact_keys, require_non_empty_string,
  require_non_negative_safe_integer, require_positive_safe_integer, member, member_when_present,
  parse_items, parse_array, bad_text, reject, bad_media_id, not_positive, nonzero, not_an_array,
  bad_tool_content, bad_block_type, invalid_json, bad_role, not_safe, Place, clone_json_object,
  clone_json_record,
}
use qq_bot_v.Ledger.Json.Laws.{is_json_record}
use qq_bot_v.Ledger.Json.Laws.Copies.{both_true, clone_json_record-is_json_record}
use qq_bot_v.Ledger.Parse.Messages.{
  parse_tool_call, parse_native_block, parse_content_block, parse_text_block, parse_image_ref,
  require_media_id, parse_tool_result_content, parse_user, parse_assistant, parse_tool,
  parse_durable_agent_message,
}
use qq_bot_v.Ledger.Parse.Stored.{
  all_of, when_present, within_safe, is_positive, is_positive_safe, valid_call, has_native_type,
  valid_native, valid_block, refused_json, valid_content, valid_message,
}

-- What a parser returns satisfies the test.
abbrev pub Yields {ℓ} : {A : Type ℓ} → (A → Bool) → Parsed A → Type ℓ
Yields {A = A} valid r = (a : A) → r ≡ ok a → valid a ≡ true

pub not_blank : (s : Text) → is_blank s ≡ false → not (is_blank s) ≡ true
not_blank s h = rw h refl

pub require_non_empty_string-not_blank :
    (v : Value) (place : Place) → Yields (λ s. not (is_blank s)) (require_non_empty_string v place)
require_non_empty_string-not_blank v place s h =
    let (t, got, h1) = >>=-eq-ok (demand_some (as_string v) place bad_text) _ h in
    elim (Bool-cases (is_blank t)) [
      | inl blank ↦ absurd (
          let h' : ◌≡◌ {A = Parsed Text} (reject place bad_text) (ok s) = rw blank at h1 in
          let bad : ⊥ = cc in bad)
      | inr full ↦
          let h' : ◌≡◌ {A = Parsed Text} (ok t) (ok s) = rw full at h1 in
          subst (λ u. not (is_blank u) ≡ true) (ok-injective h') (not_blank t full)
    ]

pub clone_json_object-is_json_record :
    (v : Value) (place : Place) → Yields is_json_record (clone_json_object v place)
clone_json_object-is_json_record v place fs h =
    let (gs, got, h1) = >>=-eq-ok (require_record v place) _ h in
    clone_json_record-is_json_record gs fs place h1

pub parse_tool_call-valid_call :
    (v : Value) (place : Place) → Yields valid_call (parse_tool_call v place)
unfolding parse_tool_call
parse_tool_call-valid_call v place c h =
    let (call, _, h1) = >>=-eq-ok (require_record v place) _ h in
    let (_, _, h2) =
      >>=-eq-ok (require_exact_keys call (text "id" ∷ text "name" ∷ text "args" ∷ []) [] place) _
        h1 in
    let (id, i, h3) = >>=-eq-ok (member call place (text "id") require_non_empty_string) _ h2 in
    let (name, n, h4) = >>=-eq-ok (member call place (text "name") require_non_empty_string) _ h3 in
    let (args, a, h5) = >>=-eq-ok (member call place (text "args") clone_json_object) _ h4 in
    subst (λ c. valid_call c ≡ true) (ok-injective h5)
      (both_true (require_non_empty_string-not_blank _ _ id i) (
        both_true (require_non_empty_string-not_blank _ _ name n)
          (clone_json_object-is_json_record _ _ args a)))

module _ {ℓ} {A : Type ℓ} (parse : Value → Place → Parsed A) (valid : A → Bool)
    (sound : (v : Value) (place : Place) → Yields valid (parse v place)) where
  parse_items-valid :
      (vs : Items) (i : ℕ) (place : Place) → Yields (all_of valid) (parse_items parse vs i place)
  parse_items-valid nil i place xs h = subst (λ xs. all_of valid xs ≡ true) (ok-injective h) refl
  parse_items-valid (cons v vs) i place xs h =
      let (a, got, h1) = >>=-eq-ok (parse v (at_index place i)) _ h in
      let (more, rest, h2) = >>=-eq-ok (parse_items parse vs (i + 1) place) _ h1 in
      subst (λ xs. all_of valid xs ≡ true) (ok-injective h2)
        (both_true (sound v (at_index place i) a got)
          (parse_items-valid vs (i + 1) place more rest))

  pub parse_array-valid :
      (problem : Problem) (v : Value) (place : Place)
      → Yields (all_of valid) (parse_array parse problem v place)
  parse_array-valid problem v place xs h =
      let (vs, got, h1) = >>=-eq-ok (demand_some (as_array v) place problem) _ h in
      parse_items-valid vs 0 place xs h1

  pub member_when_present-valid :
      (fs : Fields) (place : Place) (k : Text)
      → Yields (when_present valid) (member_when_present fs place k parse)
  member_when_present-valid fs place k o h = by_value (prop k fs) o h
    where
      by_value :
          (v : Value)
          → Yields
              (when_present valid)
              (elim v [ undefined ↦ ok none | v ↦ parse v (at_key place k) >>= λ a. ok (some a) ])
      by_value undefined o h = subst (λ o. when_present valid o ≡ true) (ok-injective h) refl
      by_value v o h =
          let (a, got, h1) = >>=-eq-ok (parse v (at_key place k)) _ h in
          subst (λ o. when_present valid o ≡ true) (ok-injective h1)
            (sound v (at_key place k) a got)

pub parse_native_block-valid_native :
    (v : Value) (place : Place) → Yields valid_native (parse_native_block v place)
unfolding parse_native_block
parse_native_block-valid_native v place w h =
    let (cloned, c, h1) = >>=-eq-ok (clone_json_object v place) _ h in
    let (_, typed, h2) =
      >>=-eq-ok
        (demand (has_native_type (prop (text "type") cloned)) (at_key place (text "type"))
          bad_block_type)
        _ h1 in
    subst (λ w. valid_native w ≡ true) (ok-injective h2)
      (both_true (clone_json_object-is_json_record v place cloned c) (demanded _ typed))
  where
    demanded :
        (b : Bool) {u : Unit {0}}
        → demand b (at_key place (text "type")) bad_block_type ≡ ok u
        → b ≡ true
    demanded true h = refl
    demanded false h = cc

pub non_negative_safe-within_safe :
    (v : Value) (place : Place) → Yields within_safe (require_non_negative_safe_integer v place)
unfolding non_negative_safe
non_negative_safe-within_safe (number (natural n)) place m h = elim (Bool-cases (within_safe n)) [
  | inl low ↦
      let h' : ◌≡◌ {A = Parsed ℕ} (ok n) (ok m) = rw (non_negative_safe, low) at h in
      subst (λ k. within_safe k ≡ true) (ok-injective h') low
  | inr high ↦ absurd (
      let h' : ◌≡◌ {A = Parsed ℕ} (reject place not_safe) (ok m) =
        rw (non_negative_safe, high) at h in
      let bad : ⊥ = cc in bad)
]
non_negative_safe-within_safe _ place m h = cc

pub positive_safe-valid :
    (v : Value) (place : Place) → Yields is_positive_safe (require_positive_safe_integer v place)
positive_safe-valid v place m h =
    let (n, got, h1) = >>=-eq-ok (require_non_negative_safe_integer v place) _ h in
    by_number n (non_negative_safe-within_safe v place n got) h1
  where
    by_number : (n : ℕ) → within_safe n ≡ true → nonzero place n ≡ ok m → is_positive_safe m ≡ true
    by_number zero safe h = cc
    by_number (suc n) safe h =
        subst (λ k. is_positive_safe k ≡ true) (ok-injective h) (both_true safe refl)

pub require_media_id-is_positive_decimal :
    (v : Value) (place : Place) → Yields is_positive_decimal (require_media_id v place)
require_media_id-is_positive_decimal (string s) place t h =
    elim (Bool-cases (is_positive_decimal s)) [
      | inl digits ↦
          let h' : ◌≡◌ {A = Parsed Text} (ok s) (ok t) = rw digits at h in
          subst (λ u. is_positive_decimal u ≡ true) (ok-injective h') digits
      | inr other ↦ absurd (
          let h' : ◌≡◌ {A = Parsed Text} (reject place bad_media_id) (ok t) = rw other at h in
          let bad : ⊥ = cc in bad)
    ]
require_media_id-is_positive_decimal _ place t h = cc

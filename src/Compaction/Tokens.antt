-- ===== src/Compaction/Tokens.antt =====
-- Token estimates (src/agent/compaction-token-estimator.ts). `JSON.stringify` of a message and of a
-- compaction payload is a parameter: the estimate uses its result by its length in UTF-8 only.
pub mod Laws
use qq_bot_v.Prelude.{
  ℕ, ◌+◌, ◌/◌, max, Bool, true, false, ◌&&◌, Option, none, some, List, [], ◌∷◌, map, ltb, leb, ◌==◌,
  nat_eq, if◌then◌else◌, Text, keep, any, Result, ok, ◌>>◌, guard,
}
use qq_bot_v.Prelude.Values.{max_safe_integer}
use qq_bot_v.Ledger.Types.{
  Message, user, assistant, tool, plain, blocks, CompactionPayload, Entry, message_entry,
  compaction_entry, entry_id,
}

-- `Buffer.byteLength(value, 'utf8')`; `high` says that the unit before is an unpaired high
-- surrogate, which has been counted as three bytes and makes four with a low one.
utf8_length_from : Bool → Text → ℕ
utf8_length_from high [] = 0
utf8_length_from high (c ∷ cs) =
    let is_high = leb 0xD800 c && ltb c 0xDC00 in
    let low = leb 0xDC00 c && ltb c 0xE000 in
    (if ltb c 0x80 then 1 else if ltb c 0x800 then 2 else if high && low then 1 else 3)
    + utf8_length_from is_high cs

unfoldable pub utf8_length : Text → ℕ
unfolding utf8_length_from
utf8_length s = utf8_length_from false s

-- `safeAdd` and `safeTokenSum` (src/agent/compaction.ts): the sum, or the largest safe integer.
unfoldable pub safe_add : ℕ → ℕ → ℕ
safe_add left right =
    let value = left + right in if leb value max_safe_integer then value else max_safe_integer

unfoldable pub estimate_utf8_tokens : Text → ℕ → ℕ
unfolding safe_add
estimate_utf8_tokens value envelope_tokens =
    safe_add (max 1 ((utf8_length value + 3) / 4)) envelope_tokens

abbrev message_envelope_tokens : ℕ
message_envelope_tokens = 8

abbrev structured_envelope_tokens : ℕ
structured_envelope_tokens = 16

pub data Source : Type 0 where
  provider_prefix local_structure utf8_bytes : Source

abbrev has_local_structure : Message → Bool
has_local_structure (assistant _ (c ∷ cs) _) = true
has_local_structure (assistant _ [] (some native)) = true
has_local_structure (assistant _ [] none) = false
has_local_structure (tool _ (blocks _)) = true
has_local_structure (tool _ (plain _)) = false
has_local_structure (user _) = false

-- The text of a message with no structure of its own.
abbrev plain_content : Message → Text
plain_content (user content) = content
plain_content (assistant content _ _) = content
plain_content (tool _ (plain content)) = content
plain_content (tool _ (blocks _)) = []

pub record EntryEstimate : Type 0 where
  pub id : ℕ
  pub tokens : ℕ
  pub source : Source

pub record ContextEstimate : Type 0 where
  pub tokens : ℕ
  pub source : Source
  pub estimated_entry_ids : List ℕ

pub data PrefixError : Type 0 where
  input_tokens_not_safe through_entry_not_positive through_entry_missing : PrefixError

module _ (stringify_message : Message → Text) (stringify_payload : CompactionPayload → Text) where
  unfoldable pub estimate_message_tokens : Message → ℕ × Source
  estimate_message_tokens m =
      if has_local_structure m
      then (estimate_utf8_tokens (stringify_message m) structured_envelope_tokens, local_structure)
      else (estimate_utf8_tokens (plain_content m) message_envelope_tokens, utf8_bytes)

  unfoldable pub estimate_entry_tokens : Entry → EntryEstimate
  unfolding estimate_message_tokens
  estimate_entry_tokens (message_entry m) =
      let (tokens, source) = estimate_message_tokens m.message in
      record { id = m.id; tokens = tokens; source = source }
  estimate_entry_tokens (compaction_entry c) = record {
    id = c.id;
    tokens = estimate_utf8_tokens (stringify_payload c.payload) structured_envelope_tokens;
    source = local_structure;
  }

  abbrev is_local : EntryEstimate → Bool
  is_local e = elim e.source [ local_structure ↦ true | _ ↦ false ]

  abbrev add_estimates : ℕ → List EntryEstimate → ℕ
  add_estimates sum [] = sum
  add_estimates sum (e ∷ es) = add_estimates (safe_add sum e.tokens) es

  abbrev validate_through : Option ℕ → List Entry → Result PrefixError (Unit {0})
  validate_through none es = ok tt
  validate_through (some id) es = do
    guard (ltb 0 id) through_entry_not_positive
    guard (any (λ e. entry_id e == id) es) through_entry_missing

  abbrev behind : Option ℕ → Entry → Bool
  behind none e = true
  behind (some id) e = ltb id (entry_id e)

  -- With a provider prefix, its own count stands for the entries up to `through`.
  unfoldable pub estimate_ledger_context_tokens :
      List Entry → Option (Option ℕ × ℕ) → Result PrefixError ContextEstimate
  unfolding estimate_entry_tokens
  estimate_ledger_context_tokens es none =
      let estimates = map estimate_entry_tokens es in
      ok (record {
        tokens = add_estimates 0 estimates;
        source = if any is_local estimates then local_structure else utf8_bytes;
        estimated_entry_ids = map (λ e. e.id) estimates;
      })
  estimate_ledger_context_tokens es (some (through, input_tokens)) = do
    guard (leb input_tokens max_safe_integer) input_tokens_not_safe
    validate_through through es
    let estimates = map estimate_entry_tokens (keep (behind through) es)
    ok (record {
      tokens = safe_add input_tokens (add_estimates 0 estimates);
      source = provider_prefix;
      estimated_entry_ids = map (λ e. e.id) estimates;
    })

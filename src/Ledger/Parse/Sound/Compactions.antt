-- ===== src/Ledger/Parse/Sound/Compactions.antt =====
-- Every compaction that is parsed is one that the ledger can hold.
use qq_bot_v.Prelude.{
  ℕ, zero, suc, ◌<◌, ◌≡◌, refl, inl, inr, Bool, true, false, ◌&&◌, Option, some, List, [], ◌∷◌, All,
  text_eq, Text, text, is_positive_decimal, ok, >>=-eq-ok, ok-injective, arith, Bool-cases, ◌≤◌,
  ◌+◌, ◌*◌, ◌-◌,
}
use mathlib.Core.Path.{subst}
use qq_bot_v.Prelude.Json.{decimal_value, sort_entries}
use qq_bot_v.Prelude.Json.Sorting.{is_sorted, sort_entries-is_sorted, All-sort_entries}
use qq_bot_v.Prelude.Values.{Value, null, string, Fields, end, field, prop}
use qq_bot_v.Mailbox.Keys.{is_mailbox_key}
use qq_bot_v.Ledger.Types.{AttentionCursors}
use qq_bot_v.Ledger.Json.{
  Place, Problem, Parsed, at_key, collect, demand, reject, bad_entry_id, bad_mailbox_key,
  unsupported_version, is_version, require_record, require_exact_keys, require_non_empty_string,
  require_non_negative_safe_integer, parse_nullable_entry_id, member, member_when_present,
}
use qq_bot_v.Ledger.Json.Laws.Copies.{both_true, collect-is_sorted}
use qq_bot_v.Ledger.Parse.Compactions.{
  parse_reason, parse_attention_cursors, parse_attention_mailboxes, parse_mailbox_attention_state,
  parse_compaction_payload, require_boolean,
}
use qq_bot_v.Ledger.Parse.Stored.{
  when_present, is_positive, within_safe, valid_cursors, valid_mailboxes, valid_payload,
}
use qq_bot_v.Ledger.Parse.Sound.{
  Yields, require_non_empty_string-not_blank, member_when_present-valid,
  non_negative_safe-within_safe,
}

decimal_value_grows : (acc : ℕ) (s : Text) → acc ≤ decimal_value acc s
decimal_value_grows acc [] = omega arith
decimal_value_grows acc (c ∷ s) =
    let more = decimal_value_grows (acc * 10 + (c - 48)) s in omega arith

nonzero-is_positive : (n : ℕ) → 0 < n → is_positive n ≡ true
nonzero-is_positive zero h = absurd (let bad : ⊥ = omega arith in bad)
nonzero-is_positive (suc n) h = refl

decimal_value-is_positive :
    (s : Text) → is_positive_decimal s ≡ true → is_positive (decimal_value 0 s) ≡ true
decimal_value-is_positive [] h = cc
decimal_value-is_positive (c ∷ s) h =
    nonzero-is_positive (decimal_value (0 * 10 + (c - 48)) s)
      (let more = decimal_value_grows (0 * 10 + (c - 48)) s in ground (arith, h))

parse_nullable_entry_id-nonzero :
    (v : Value) (place : Place)
    → Yields (when_present is_positive) (parse_nullable_entry_id v place)
parse_nullable_entry_id-nonzero null place o h =
    subst (λ o. when_present is_positive o ≡ true) (ok-injective h) refl
parse_nullable_entry_id-nonzero (string s) place o h = elim (Bool-cases (is_positive_decimal s)) [
  | inl digits ↦
      let h' : ◌≡◌ {A = Parsed (Option ℕ)} (ok (some (decimal_value 0 s))) (ok o) =
        rw digits at h in
      subst (λ o. when_present is_positive o ≡ true) (ok-injective h')
        (decimal_value-is_positive s digits)
  | inr other ↦ absurd (
      let h' : ◌≡◌ {A = Parsed (Option ℕ)} (reject place bad_entry_id) (ok o) = rw other at h in
      let bad : ⊥ = cc in bad)
]
parse_nullable_entry_id-nonzero _ place o h = cc

parse_attention_cursors-valid_cursors :
    (v : Value) (place : Place) → Yields valid_cursors (parse_attention_cursors v place)
unfolding parse_attention_cursors
parse_attention_cursors-valid_cursors v place c h =
    let (fs, _, h1) = >>=-eq-ok (require_record v place) _ h in
    let (_, _, h2) =
      >>=-eq-ok
        (require_exact_keys fs (text "disclosedThroughRowId" ∷ text "handledThroughRowId" ∷ [])
          (text "highPriorityThroughRowId" ∷ []) place)
        _ h1 in
    let (disclosed, d, h3) =
      >>=-eq-ok (member fs place (text "disclosedThroughRowId") require_non_negative_safe_integer) _
        h2 in
    let (handled, n, h4) =
      >>=-eq-ok (member fs place (text "handledThroughRowId") require_non_negative_safe_integer) _
        h3 in
    let (high, p, h5) =
      >>=-eq-ok
        (member_when_present fs place (text "highPriorityThroughRowId")
          require_non_negative_safe_integer)
        _ h4 in
    subst (λ c. valid_cursors c ≡ true) (ok-injective h5)
      (both_true
        (non_negative_safe-within_safe (prop (text "disclosedThroughRowId") fs)
          (at_key place (text "disclosedThroughRowId")) disclosed d)
        (both_true
          (non_negative_safe-within_safe (prop (text "handledThroughRowId") fs)
            (at_key place (text "handledThroughRowId")) handled n)
          (member_when_present-valid require_non_negative_safe_integer within_safe
            non_negative_safe-within_safe fs place (text "highPriorityThroughRowId") high p)))

demanded :
    (b : Bool) (place : Place) (problem : Problem) {u : Unit {0}}
    → demand b place problem ≡ ok u
    → b ≡ true
demanded true place problem h = refl
demanded false place problem h = cc

-- A mailbox that is parsed has a good key and good cursors.
abbrev Good : Text × Parsed AttentionCursors → Type 0
Good e = (c : AttentionCursors) → e.1 ≡ ok c → (is_mailbox_key e.0 && valid_cursors c) ≡ true

parse_attention_mailboxes-Good :
    (fs : Fields) (place : Place) → All Good (parse_attention_mailboxes fs place)
parse_attention_mailboxes-Good end place = tt
parse_attention_mailboxes-Good (field k v fs) place = (
  λ c h.
      let (_, named, h1) =
        >>=-eq-ok (demand (is_mailbox_key k) (at_key place k) bad_mailbox_key) _ h in
      both_true (demanded (is_mailbox_key k) (at_key place k) bad_mailbox_key named)
        (parse_attention_cursors-valid_cursors v (at_key place k) c h1),
  parse_attention_mailboxes-Good fs place,
)

collect-valid_mailboxes :
    (l : List (Text × Parsed AttentionCursors)) → All Good l → Yields valid_mailboxes (collect l)
collect-valid_mailboxes [] g cs h = subst (λ cs. valid_mailboxes cs ≡ true) (ok-injective h) refl
collect-valid_mailboxes ((k, r) ∷ l) g cs h =
    let (c, got, h1) = >>=-eq-ok r _ h in
    let (more, rest, h2) = >>=-eq-ok (collect l) _ h1 in
    subst (λ cs. valid_mailboxes cs ≡ true) (ok-injective h2)
      (both_true (g.0 c got) (collect-valid_mailboxes l g.1 more rest))

abbrev valid_state : List (Text × AttentionCursors) → Bool
valid_state cs = is_sorted cs && valid_mailboxes cs

parse_mailbox_attention_state-valid :
    (v : Value) (place : Place) → Yields valid_state (parse_mailbox_attention_state v place)
unfolding parse_mailbox_attention_state
parse_mailbox_attention_state-valid v place cs h =
    let (fs, _, h1) = >>=-eq-ok (require_record v place) _ h in
    let boxes = parse_attention_mailboxes fs place in
    both_true (collect-is_sorted (sort_entries boxes) cs (sort_entries-is_sorted boxes) h1) (
      collect-valid_mailboxes (sort_entries boxes)
        (All-sort_entries Good boxes (parse_attention_mailboxes-Good fs place)) cs h1)

pub parse_compaction_payload-valid_payload :
    (v : Value) (place : Place) → Yields valid_payload (parse_compaction_payload v place)
unfolding parse_compaction_payload
parse_compaction_payload-valid_payload v place p h =
    let (fs, _, h1) = >>=-eq-ok (require_record v place) _ h in
    let (_, _, h2) =
      >>=-eq-ok
        (require_exact_keys fs
          (text "schemaVersion"
            ∷ text "summary"
            ∷ text "firstKeptEntryId"
            ∷ text "tokensBefore"
            ∷ text "estimatedTokensAfter"
            ∷ text "reason"
            ∷ text "isSplitTurn"
            ∷ text "previousCompactionEntryId"
            ∷ text "mailboxAttentionState"
            ∷ [])
          (text "manualFocus" ∷ text "restResumeState" ∷ []) place)
        _ h1 in
    let (_, _, h3) =
      >>=-eq-ok (demand (is_version 1 (prop (text "schemaVersion") fs)) place unsupported_version) _
        h2 in
    let (summary, s, h4) =
      >>=-eq-ok (member fs place (text "summary") require_non_empty_string) _ h3 in
    let (reason, _, h5) = >>=-eq-ok (member fs place (text "reason") parse_reason) _ h4 in
    let (split, _, h6) = >>=-eq-ok (member fs place (text "isSplitTurn") require_boolean) _ h5 in
    let (first, f, h7) =
      >>=-eq-ok (member fs place (text "firstKeptEntryId") parse_nullable_entry_id) _ h6 in
    let (before, b, h8) =
      >>=-eq-ok (member fs place (text "tokensBefore") require_non_negative_safe_integer) _ h7 in
    let (after, a, h9) =
      >>=-eq-ok (member fs place (text "estimatedTokensAfter") require_non_negative_safe_integer) _
        h8 in
    let (previous, q, h10) =
      >>=-eq-ok (member fs place (text "previousCompactionEntryId") parse_nullable_entry_id) _ h9 in
    let (state, m, h11) =
      >>=-eq-ok (member fs place (text "mailboxAttentionState") parse_mailbox_attention_state) _
        h10 in
    subst (λ p. valid_payload p ≡ true) (ok-injective h11)
      (both_true (require_non_empty_string-not_blank (prop (text "summary") fs) _ summary s) (
        both_true
          (parse_nullable_entry_id-nonzero (prop (text "firstKeptEntryId") fs)
            (at_key place (text "firstKeptEntryId")) first f)
          (both_true
            (non_negative_safe-within_safe (prop (text "tokensBefore") fs)
              (at_key place (text "tokensBefore")) before b)
            (both_true
              (non_negative_safe-within_safe (prop (text "estimatedTokensAfter") fs)
                (at_key place (text "estimatedTokensAfter")) after a)
              (both_true
                (parse_nullable_entry_id-nonzero (prop (text "previousCompactionEntryId") fs)
                  (at_key place (text "previousCompactionEntryId")) previous q)
                (parse_mailbox_attention_state-valid (prop (text "mailboxAttentionState") fs)
                  (at_key place (text "mailboxAttentionState")) state m))))))

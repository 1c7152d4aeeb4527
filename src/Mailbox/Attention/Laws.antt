-- ===== src/Mailbox/Attention/Laws.antt =====
-- The captured cursors are the largest that the history holds, and what that makes of a compaction.
use qq_bot_v.Prelude.{
  ℕ, zero, suc, ◌≡◌, refl, ap, sym, ◌∙◌, max, inl, inr, true, ◌&&◌, Option, none, some, List, [],
  ◌∷◌, ◌++◌, arith, ◌==◌, nat_eq, text_eq, text_beq_iff, Text, lookup, lookup-insert, flat_map,
  if◌then◌else◌, Bool-cases,
}
use mathlib.Core.Path.{subst}
use mathlib.Core.List.{append_assoc}
use qq_bot_v.Prelude.Json.{lookup-sort_entries}
use qq_bot_v.Prelude.Values.{Value}
use qq_bot_v.Ledger.Types.{Message, AttentionCursors}
use qq_bot_v.Mailbox.Attention.{
  or_zero, AttentionState, positive, high_of, is_zero_cursors, merge_with, is_absent,
  merge_mailbox_cursors, merge_facts, message_facts, capture_from, capture_mailbox_attention_state,
}

-- The three marks of a mailbox.
pub data Mark : Type 0 where
  disclosed handled high : Mark

abbrev pub mark_of : Mark → AttentionCursors → ℕ
mark_of disclosed c = c.disclosed_through_row_id
mark_of handled c = c.handled_through_row_id
mark_of high c = high_of c

abbrev pub mark_in : Mark → Option AttentionCursors → ℕ
mark_in k none = 0
mark_in k (some c) = mark_of k c

-- The mark of a mailbox, 0 where it has no entry.
abbrev pub mark_at : Mark → Text → AttentionState → ℕ
mark_at k mailbox state = mark_in k (lookup mailbox state)

or_zero-positive : (n : ℕ) → or_zero (positive n) ≡ n
or_zero-positive zero = refl
or_zero-positive (suc n) = refl

mark-merge_with :
    (k : Mark) (b : Option AttentionCursors) (c : AttentionCursors)
    → mark_of k (merge_with b c) ≡ max (mark_in k b) (mark_of k c)
mark-merge_with disclosed none c = omega arith
mark-merge_with handled none c = omega arith
mark-merge_with high none c = omega (arith, or_zero-positive (high_of c))
mark-merge_with disclosed (some b) c = refl
mark-merge_with handled (some b) c = refl
mark-merge_with high (some b) c = or_zero-positive _

mark-zero : (k : Mark) (c : AttentionCursors) → is_zero_cursors c ≡ true → mark_of k c ≡ 0
mark-zero disclosed c h = ground arith
mark-zero handled c h = ground arith
mark-zero high c h = ground arith

-- A merge raises the marks of one mailbox to those that come in.
mark_at-merge :
    (k : Mark) (j : Text) (m : AttentionState) (mailbox : Text) (c : AttentionCursors)
    → mark_at k j (merge_mailbox_cursors m mailbox c)
      ≡ (if mailbox == j then max (mark_at k j m) (mark_of k c) else mark_at k j m)
unfolding merge_mailbox_cursors
mark_at-merge k j m mailbox c =
    elim (Bool-cases (is_absent (lookup mailbox m) && is_zero_cursors c)) [
      | inl skipped ↦ rw skipped (ground (arith, mark-zero k c))
      | inr merged ↦
          rw (merged, lookup-insert j mailbox (merge_with (lookup mailbox m) c) m)
            (elim (Bool-cases (mailbox == j)) [
              | inl same ↦ rw same (
                  subst
                    (λ t.
                      mark_of k (merge_with (lookup mailbox m) c)
                      ≡ max (mark_at k t m) (mark_of k c))
                    ((text_beq_iff mailbox j).0 same) (mark-merge_with k (lookup mailbox m) c))
              | inr other ↦ rw other
            ])
    ]

-- The largest mark that a list of facts holds for a mailbox.
abbrev pub largest : Mark → Text → List (Text × AttentionCursors) → ℕ
largest k j [] = 0
largest k j ((mailbox, c) ∷ facts) =
    max (if mailbox == j then mark_of k c else 0) (largest k j facts)

mark_at-merge_facts :
    (k : Mark) (j : Text) (m : AttentionState) (facts : List (Text × AttentionCursors))
    → mark_at k j (merge_facts m facts) ≡ max (mark_at k j m) (largest k j facts)
unfolding merge_facts
mark_at-merge_facts k j m [] = omega arith
mark_at-merge_facts k j m ((mailbox, c) ∷ facts) =
    let ih = mark_at-merge_facts k j (merge_mailbox_cursors m mailbox c) facts in
    let one = mark_at-merge k j m mailbox c in ground arith

largest-append :
    (k : Mark) (j : Text) (a b : List (Text × AttentionCursors))
    → largest k j (a ++ b) ≡ max (largest k j a) (largest k j b)
largest-append k j [] b = omega arith
largest-append k j ((mailbox, c) ∷ a) b = omega (arith, largest-append k j a b)

module _ (parse_json : Text → Option Value) where
  -- All that a history says of the mailboxes.
  abbrev pub history_facts : List Message → List (Text × AttentionCursors)
  history_facts ms = flat_map (message_facts parse_json) ms

  mark_at-capture_from :
      (k : Mark) (j : Text) (m : AttentionState) (ms : List Message)
      → mark_at k j (capture_from parse_json m ms)
        ≡ max (mark_at k j m) (largest k j (history_facts ms))
  unfolding capture_from
  mark_at-capture_from k j m [] = omega arith
  mark_at-capture_from k j m (x ∷ ms) = omega (
    arith,
    mark_at-capture_from k j (merge_facts m (message_facts parse_json x)) ms,
    mark_at-merge_facts k j m (message_facts parse_json x),
    largest-append k j (message_facts parse_json x) (history_facts ms),
  )

  -- Each mark that is captured for a mailbox (disclosed, handled, high priority) is the largest
  -- that the facts of the history's messages hold for it, 0 where there is none.
  pub mark_at-capture :
      (k : Mark) (j : Text) (ms : List Message)
      → mark_at k j (capture_mailbox_attention_state parse_json ms) ≡ largest k j (history_facts ms)
  unfolding capture_mailbox_attention_state
  mark_at-capture k j ms =
      ap (mark_in k) (lookup-sort_entries j (capture_from parse_json [] ms))
      ∙ (let e = mark_at-capture_from k j [] ms in omega arith)

  history_facts-append :
      (a b : List Message) → history_facts (a ++ b) ≡ history_facts a ++ history_facts b
  history_facts-append [] b = refl
  history_facts-append (x ∷ a) b =
      ap (λ t. message_facts parse_json x ++ t) (history_facts-append a b)
      ∙ sym (append_assoc (message_facts parse_json x) (history_facts a) (history_facts b))

  -- Each mark that is captured from two histories in a row is the larger of those captured from
  -- each.
  pub mark_at-capture_append :
      (k : Mark) (j : Text) (a b : List Message)
      → mark_at k j (capture_mailbox_attention_state parse_json (a ++ b))
        ≡ max
            (mark_at k j (capture_mailbox_attention_state parse_json a))
            (mark_at k j (capture_mailbox_attention_state parse_json b))
  mark_at-capture_append k j a b = omega (
    arith,
    mark_at-capture k j (a ++ b),
    mark_at-capture k j a,
    mark_at-capture k j b,
    ap (largest k j) (history_facts-append a b),
    largest-append k j (history_facts a) (history_facts b),
  )

-- ===== src/Compaction/Commit/Selection.antt =====
-- What the projection selects once the candidate of a prepared compaction is in the ledger.
use qq_bot_v.Prelude.{
  ℕ, ◌≡◌, refl, ap, sym, ◌∙◌, inl, inr, true, Option, none, some, List, [], ◌∷◌, ◌++◌, nat_eq, keep,
  All, Text, Result, ok, err, ◌≤◌, Bool-cases, ok-injective,
}
use mathlib.Core.Path.{subst}
use qq_bot_v.Ledger.Types.{
  AttentionCursors, MessageEntry, CompactionEntry, Entry, message_entry, compaction_entry,
  message_entries,
}
use qq_bot_v.Ledger.Active.{
  LedgerError, from_boundary, compaction_id, option_beq, messages_of, check_boundary, chain_from,
  validate_compaction_chain, select_active_messages, select_active_message_entries,
}
use qq_bot_v.Ledger.Order.{Ascends, find-Among}
use qq_bot_v.Compaction.Units.{build_atomic_units}
use qq_bot_v.Compaction.Prepare.{PrepareInput, Ready, ready, prepare_compaction}
use qq_bot_v.Compaction.Prepare.Parts.{Divides}
use qq_bot_v.Compaction.Prepare.Laws.{
  previous_of, prepare_compaction-fresh, prepare_compaction-Divides,
}
use qq_bot_v.Compaction.Commit.{candidate_entry}
use qq_bot_v.Compaction.Commit.Laws.{
  candidate_entry-Carries, keep-none, keep-candidate, message_entries-append_compaction,
  starts_units, Among-active, active_from, last_with_id, Ascends-head, option_beq-eq,
  option_beq_refl,
}

-- The boundary of the candidate is the first entry of the tail, and the tail is from there on.
from_tail :
    (get_tokens : MessageEntry → ℕ) (es : List Entry) (previous : Option CompactionEntry)
    (p : Ready) (c : CompactionEntry)
    → Ascends 0 es
    → Divides get_tokens (select_active_message_entries es previous) p
    → (check_boundary c.id p.first_kept_entry_id (es ++ compaction_entry c ∷ []) ≡ ok tt)
      × (keep (λ m. from_boundary p.first_kept_entry_id m.id) (message_entries es) ≡ p.tail_entries)
unfolding check_boundary
from_tail g es previous p c asc d = elim d.kept_is [
  | inl (empty, fk) ↦ (rw fk refl, rw (fk, empty) (keep-none (message_entries es)))
  | inr (first, rest, tail, fk) ↦
      let part : p.entries_to_summarize ++ first ∷ rest
          ≡ select_active_message_entries es previous =
        ap (λ t. p.entries_to_summarize ++ t) (sym tail) ∙ d.partition in
      let among = Among-active es previous p.entries_to_summarize rest first part in
      let found = find-Among first 0 es (compaction_entry c ∷ []) asc among in
      let units : build_atomic_units (λ m. m.message) g (first ∷ rest) ≡ some d.tail_units =
        ap (build_atomic_units (λ m. m.message) g) (sym tail) ∙ d.replayed in
      (
        rw (fk, found) (starts_units g c.id first.id first rest units),
        rw (fk, tail) (active_from es previous p.entries_to_summarize rest first asc part),
      )
]

-- For a ledger with ascending ids, a compaction that was prepared as ready and its candidate
-- entry: once the candidate stands after the ledger, the active messages are exactly the messages
-- of the tail that was prepared, in their order.
pub candidate-select_active_messages :
    (get_tokens : MessageEntry → ℕ) (i : PrepareInput) (p : Ready) (summary : Text)
    (summary_tokens : ℕ) (attention : List (Text × AttentionCursors)) (runtime_head : Option ℕ)
    (c : CompactionEntry)
    → Ascends 0 i.entries
    → prepare_compaction get_tokens i ≡ ok (ready p)
    → candidate_entry p summary summary_tokens attention runtime_head ≡ some c
    → select_active_messages (i.entries ++ compaction_entry c ∷ []) (some c)
      ≡ ok (messages_of p.tail_entries)
unfolding select_active_messages
candidate-select_active_messages g i p summary n attention runtime_head c asc prep cand =
    let carries = candidate_entry-Carries p summary n attention runtime_head c cand in
    let (fresh, expected, _) = prepare_compaction-fresh g i p prep in
    let (last, is_last, id) =
      last_with_id i.entries carries.head
        (option_beq-eq _ _ fresh ∙ sym expected ∙ carries.expected) in
    let low : All (λ m. m.id ≤ carries.head) (message_entries i.entries) =
      subst (λ h. All (λ m. m.id ≤ h) (message_entries i.entries)) id
        (Ascends-head 0 i.entries last asc is_last).1 in
    let (checked, kept) =
      from_tail g i.entries (previous_of i) p c asc (prepare_compaction-Divides g i p prep) in
    let checked' =
      subst (λ b. check_boundary c.id b (i.entries ++ compaction_entry c ∷ []) ≡ ok tt)
        (sym carries.boundary) checked in
    simp (
      checked',
      message_entries-append_compaction i.entries c,
      keep-candidate c carries.head p.first_kept_entry_id (message_entries i.entries)
          carries.is_next carries.boundary low,
      kept,
    )

err-ok : {A : Type 0} {e : LedgerError} {a : A} → ¬ (◌≡◌ {A = Result LedgerError A} (err e) (ok a))
err-ok h = cc

chain_from-append :
    (previous : Option CompactionEntry) (es : List Entry) (c : CompactionEntry)
    {latest : Option CompactionEntry}
    → chain_from previous es ≡ ok latest
    → option_beq c.payload.previous_compaction_entry_id (compaction_id latest) ≡ true
    → chain_from previous (es ++ compaction_entry c ∷ []) ≡ ok (some c)
unfolding chain_from
chain_from-append previous [] c h linked =
    rw (chain_from, ap compaction_id (ok-injective h), linked) refl
chain_from-append previous (message_entry m ∷ es) c h linked =
    chain_from-append previous es c h linked
chain_from-append previous (compaction_entry d ∷ es) c h linked =
    elim (Bool-cases (option_beq d.payload.previous_compaction_entry_id (compaction_id previous))) [
      | inl e ↦
          let h' : chain_from (some d) es ≡ ok _ = (let t = rw (chain_from, e) at h in t) in
          rw (chain_from, e) (chain_from-append (some d) es c h' linked)
      | inr e ↦ absurd (err-ok (let t = rw (chain_from, e) at h in t))
    ]

-- When the compaction that was prepared upon is the last one of the ledger's valid chain, the
-- ledger with the candidate has a valid chain, and the candidate is its last.
pub candidate-validate_compaction_chain :
    (get_tokens : MessageEntry → ℕ) (i : PrepareInput) (p : Ready) (summary : Text)
    (summary_tokens : ℕ) (attention : List (Text × AttentionCursors)) (runtime_head : Option ℕ)
    (c : CompactionEntry)
    → validate_compaction_chain i.entries ≡ ok (previous_of i)
    → prepare_compaction get_tokens i ≡ ok (ready p)
    → candidate_entry p summary summary_tokens attention runtime_head ≡ some c
    → validate_compaction_chain (i.entries ++ compaction_entry c ∷ []) ≡ ok (some c)
unfolding validate_compaction_chain
candidate-validate_compaction_chain g i p summary n attention runtime_head c chain prep cand =
    let carries = candidate_entry-Carries p summary n attention runtime_head c cand in
    let (_, _, previous) = prepare_compaction-fresh g i p prep in
    chain_from-append none i.entries c chain
      (rw (carries.previous, previous) (option_beq_refl (compaction_id (previous_of i))))

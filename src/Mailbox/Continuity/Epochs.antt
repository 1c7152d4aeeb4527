-- ===== src/Mailbox/Continuity/Epochs.antt =====
-- A compaction gives every mailbox that was seen before it its context again.
use qq_bot_v.Prelude.{
  ℕ, ◌≤◌, ◌<◌, ◌≡◌, refl, ap, sym, ◌∙◌, inl, inr, Bool, true, false, not, Option, some, List, [],
  ◌∷◌, ltb, ◌==◌, nat_eq, text_eq, Text, lookup, lookup-insert, if◌then◌else◌, Result, ok, err,
  arith, Bool-cases, All,
}
use mathlib.Core.Path.{subst}
use qq_bot_v.Mailbox.Continuity.{
  MailboxContinuityAnchor, MailboxContinuityState, full, ContinuityError,
  create_empty_mailbox_continuity_state, decide_mailbox_compensation, record_mailbox_disclosure,
  record_mailbox_engagement, record_mailbox_round, record_mailbox_compaction, last_of, set_anchor,
  anchor_now,
}
use qq_bot_v.Mailbox.Continuity.Laws.{
  Operation, disclosed, engaged, round, compacted, state_or, step, run, engagement-is,
  run-preserves,
}

-- No anchor is of a later epoch than the state.
abbrev EpochsBounded : MailboxContinuityState → Type 0
EpochsBounded s =
    (key : Text) (a : MailboxContinuityAnchor)
    → lookup key s.mailboxes ≡ some a
    → a.compaction_epoch ≤ s.compaction_epoch

some-injective : {A : Type 0} {x y : A} → ◌≡◌ {A = Option A} (some x) (some y) → x ≡ y
some-injective h = cc

EpochsBounded-anchored :
    (s : MailboxContinuityState) (key : Text) (at : ℕ) (until : Option ℕ)
    → EpochsBounded s
    → EpochsBounded (set_anchor s key (anchor_now s at until))
EpochsBounded-anchored s key at until h j a e =
    let e' : (if key == j then some (anchor_now s at until) else lookup j s.mailboxes) ≡ some a =
      sym (lookup-insert j key (anchor_now s at until) s.mailboxes) ∙ e in
    elim (Bool-cases (key == j)) [
      | inl same ↦
          let q : s.compaction_epoch ≡ a.compaction_epoch =
            ap (λ a. a.compaction_epoch) (some-injective (rw same at e')) in
          omega arith
      | inr other ↦ h j a (rw other at e')
    ]

run-EpochsBounded :
    (ops : List Operation) (s : MailboxContinuityState)
    → EpochsBounded s
    → EpochsBounded (run ops s)
unfolding record_mailbox_round record_mailbox_compaction
run-EpochsBounded =
    run-preserves EpochsBounded (λ s key at until longer. EpochsBounded-anchored s key at until)
      (λ s tokens h. h) (λ s h key a e. let le = h key a e in omega arith)

-- The operation does not record the mailbox.
abbrev pub leaves : Text → Operation → Bool
leaves key (disclosed j at) = not (j == key)
leaves key (engaged j now lease) = not (j == key)
leaves key _ = true

-- The anchor of the mailbox is of an earlier epoch than the state.
abbrev Behind : Text → MailboxContinuityState → Type 0
Behind key s =
    (a : MailboxContinuityAnchor) × (lookup key s.mailboxes ≡ some a)
    × (a.compaction_epoch < s.compaction_epoch)

Behind-other :
    (key j : Text) (s : MailboxContinuityState) (a : MailboxContinuityAnchor)
    → (j == key) ≡ false
    → Behind key s
    → Behind key (set_anchor s j a)
Behind-other key j s a other (b, is, lt) =
    (b, rw (lookup-insert key j a s.mailboxes) (rw other is), lt)

leaves-other : (j key : Text) → not (j == key) ≡ true → (j == key) ≡ false
leaves-other j key h = ground arith

Behind-step :
    (key : Text) (op : Operation) (s : MailboxContinuityState)
    → leaves key op ≡ true
    → Behind key s
    → Behind key (step op s)
unfolding step record_mailbox_disclosure record_mailbox_round record_mailbox_compaction
Behind-step key (disclosed j at) s other h =
    elim (Bool-cases (ltb at (last_of (lookup j s.mailboxes)))) [
      | inl older ↦ rw older h
      | inr newer ↦ rw newer (Behind-other key j s _ (leaves-other j key other) h)
    ]
Behind-step key (engaged j now lease) s other h =
    by_result (record_mailbox_engagement s j now lease) refl
  where
    by_result :
        (r : Result ContinuityError MailboxContinuityState)
        → record_mailbox_engagement s j now lease ≡ r
        → Behind key (state_or s r)
    by_result (err e) p = h
    by_result (ok s') p =
        subst (Behind key) (sym (engagement-is s s' j now lease p))
          (Behind-other key j s _ (leaves-other j key other) h)
Behind-step key (round tokens) s other h = h
Behind-step key compacted s other (a, is, lt) = (a, is, omega arith)

Behind-run :
    (key : Text) (ops : List Operation) (s : MailboxContinuityState)
    → All (λ op. leaves key op ≡ true) ops
    → Behind key s
    → Behind key (run ops s)
Behind-run key [] s others h = h
Behind-run key (op ∷ ops) s (other, others) h =
    Behind-run key ops (step op s) others (Behind-step key op s other h)

Behind-full :
    (key : Text) (s : MailboxContinuityState) (now : ℕ)
    → Behind key s
    → ((decide_mailbox_compensation s key now).mode ≡ full)
      × ((decide_mailbox_compensation s key now).context_before ≡ 8)
unfolding decide_mailbox_compensation
Behind-full key s now (a, is, lt) =
    let changed : (s.compaction_epoch == a.compaction_epoch) ≡ false = ground (arith, lt) in
    rw (is, changed) (refl, refl)

-- A mailbox that has an anchor when the history is compacted gets the full context of 8 messages
-- at every later time, until it is recorded again. The state is any one that operations reach
-- from the empty state.
pub compaction-decide_mailbox_compensation :
    (before after : List Operation) (key : Text) (a : MailboxContinuityAnchor) (now : ℕ)
    → lookup key (run before create_empty_mailbox_continuity_state).mailboxes ≡ some a
    → All (λ op. leaves key op ≡ true) after
    → ((decide_mailbox_compensation
          (run (compacted ∷ after) (run before create_empty_mailbox_continuity_state))
          key
          now).mode
        ≡ full)
      × ((decide_mailbox_compensation
            (run (compacted ∷ after) (run before create_empty_mailbox_continuity_state))
            key
            now).context_before
          ≡ 8)
unfolding step create_empty_mailbox_continuity_state record_mailbox_compaction
compaction-decide_mailbox_compensation before after key a now is others =
    let s = run before create_empty_mailbox_continuity_state in
    let le =
      run-EpochsBounded before create_empty_mailbox_continuity_state (λ j b e. cc) key a is in
    Behind-full key _ now
      (Behind-run key after (record_mailbox_compaction s) others (a, is, omega arith))

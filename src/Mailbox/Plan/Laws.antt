-- ===== src/Mailbox/Plan/Laws.antt =====
-- The cursors after a plan, planning again, and the order in a batch.
use qq_bot_v.Prelude.{
  ℕ, max, ◌≡◌, refl, ap, sym, ◌∙◌, inl, inr, Bool, true, false, Option, none, some, List, [], ◌∷◌,
  leb, ◌==◌, nat_eq, text_eq, text_beq_iff, insert, lookup-insert, Text, arith, if◌then◌else◌,
  Bool-cases, Result, ok, >>=-eq-ok, ok-injective,
}
use mathlib.Core.Path.{subst}
use qq_bot_v.Events.Conversation.{UriError}
use qq_bot_v.Events.Types.{
  BotEvent, message_event, mailbox_backlog, wake, bootstrap, scheduled_wake,
  background_task_completed, message_row_id,
}
use qq_bot_v.Mailbox.Plan.{
  MailboxCursors, MailboxDisclosurePlan, mailbox_key_for_event, cursor_at, plan_of, plan_event,
  plan_from, plan_mailbox_disclosures,
}

abbrev pub has_key : Text → Result UriError (Option Text) → Bool
has_key k (ok (some j)) = j == k
has_key k _ = false

-- The row id that an event of a mailbox reaches.
abbrev pub row_of : BotEvent → ℕ
row_of (message_event m) = message_row_id m
row_of (mailbox_backlog b) = b.through_row_id
row_of _ = 0

-- The largest of a number and the row ids that the events of a mailbox reach.
abbrev pub largest : Text → ℕ → List BotEvent → ℕ
largest k n [] = n
largest k n (e ∷ es) =
    largest k (if has_key k (mailbox_key_for_event e) then max n (row_of e) else n) es

pub cursor_at-insert :
    (k j : Text) (row : ℕ) (cursors : MailboxCursors)
    → cursor_at k (insert j row cursors) ≡ (if j == k then row else cursor_at k cursors)
cursor_at-insert k j row cursors =
    rw (lookup-insert k j row cursors)
      (elim (Bool-cases (j == k)) [ inl same ↦ rw same refl | inr other ↦ rw other refl ])

raise :
    (k j : Text) (row : ℕ) (cursors : MailboxCursors)
    → leb row (cursor_at j cursors) ≡ false
    → cursor_at k (insert j row cursors)
      ≡ (if j == k then max (cursor_at k cursors) row else cursor_at k cursors)
raise k j row cursors above = elim (Bool-cases (j == k)) [
  | inl same ↦
      let e : j ≡ k = (text_beq_iff j k).0 same in
      let lt : leb row (cursor_at k cursors) ≡ false =
        subst (λ i. leb row (cursor_at i cursors) ≡ false) e above in
      cursor_at-insert k j row cursors ∙ rw same (ground (arith, lt))
  | inr other ↦ cursor_at-insert k j row cursors ∙ rw other refl
]

stay :
    (k j : Text) (row : ℕ) (cursors : MailboxCursors)
    → leb row (cursor_at j cursors) ≡ true
    → cursor_at k cursors ≡ (if j == k then max (cursor_at k cursors) row else cursor_at k cursors)
stay k j row cursors below = elim (Bool-cases (j == k)) [
  | inl same ↦
      let e : j ≡ k = (text_beq_iff j k).0 same in
      let le : leb row (cursor_at k cursors) ≡ true =
        subst (λ i. leb row (cursor_at i cursors) ≡ true) e below in
      rw same (ground (arith, le))
  | inr other ↦ rw other refl
]

pub ok_none-some : {k : Text} → ¬ (◌≡◌ {A = Result UriError (Option Text)} (ok none) (ok (some k)))
ok_none-some h = cc

-- An event of no mailbox.
abbrev pub is_direct : BotEvent → Bool
is_direct (message_event m) = false
is_direct (mailbox_backlog b) = false
is_direct _ = true

pub direct-key : (e : BotEvent) → is_direct e ≡ true → mailbox_key_for_event e ≡ ok none
unfolding mailbox_key_for_event
direct-key (message_event m) h = cc
direct-key (mailbox_backlog b) h = cc
direct-key wake h = refl
direct-key bootstrap h = refl
direct-key (scheduled_wake a b c) h = refl
direct-key (background_task_completed a b c d e f) h = refl

pub cursor_at-plan_event :
    (k : Text) (p : MailboxDisclosurePlan) (e : BotEvent) (o : Option Text)
    → mailbox_key_for_event e ≡ ok o
    → cursor_at k (plan_event p e o).cursors ≡ (
        if has_key k (mailbox_key_for_event e)
        then max (cursor_at k p.cursors) (row_of e)
        else cursor_at k p.cursors)
unfolding plan_event
cursor_at-plan_event k p e none h = rw h refl
cursor_at-plan_event k p (message_event m) (some j) h =
    rw h (elim (Bool-cases (leb (message_row_id m) (cursor_at j p.cursors))) [
      | inl below ↦ rw below (stay k j (message_row_id m) p.cursors below)
      | inr above ↦ rw above (raise k j (message_row_id m) p.cursors above)
    ])
cursor_at-plan_event k p (mailbox_backlog b) (some j) h =
    rw h (elim (Bool-cases (leb b.through_row_id (cursor_at j p.cursors))) [
      | inl below ↦ rw below (stay k j b.through_row_id p.cursors below)
      | inr above ↦ rw above (raise k j b.through_row_id p.cursors above)
    ])
cursor_at-plan_event k p wake (some j) h = absurd (ok_none-some (sym (direct-key wake refl) ∙ h))
cursor_at-plan_event k p bootstrap (some j) h =
    absurd (ok_none-some (sym (direct-key bootstrap refl) ∙ h))
cursor_at-plan_event k p (scheduled_wake a b c) (some j) h =
    absurd (ok_none-some (sym (direct-key (scheduled_wake a b c) refl) ∙ h))
cursor_at-plan_event k p (background_task_completed a b c d e f) (some j) h =
    absurd (ok_none-some (sym (direct-key (background_task_completed a b c d e f) refl) ∙ h))

pub cursor_at-plan_from :
    (k : Text) (es : List BotEvent) (p q : MailboxDisclosurePlan)
    → plan_from p es ≡ ok q
    → cursor_at k q.cursors ≡ largest k (cursor_at k p.cursors) es
cursor_at-plan_from k [] p q h = ap (λ p. cursor_at k p.cursors) (sym (ok-injective h))
cursor_at-plan_from k (e ∷ es) p q h =
    let (o, key, h') = >>=-eq-ok (mailbox_key_for_event e) _ h in
    cursor_at-plan_from k es (plan_event p e o) q h'
    ∙ ap (λ n. largest k n es) (cursor_at-plan_event k p e o key)

-- After a plan the cursor of every mailbox is the largest of what it was and of the row ids that
-- the events of the mailbox reach.
pub cursor_at-plan_mailbox_disclosures :
    (k : Text) (es : List BotEvent) (cursors : MailboxCursors) (p : MailboxDisclosurePlan)
    → plan_mailbox_disclosures es cursors ≡ ok p
    → cursor_at k p.cursors ≡ largest k (cursor_at k cursors) es
unfolding plan_mailbox_disclosures
cursor_at-plan_mailbox_disclosures k es cursors p h =
    cursor_at-plan_from k es (plan_of [] cursors) p h

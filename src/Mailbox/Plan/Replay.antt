-- ===== src/Mailbox/Plan/Replay.antt =====
-- Planning the same events again discloses no message twice.
use qq_bot_v.Prelude.{
  ℕ, ◌≤◌, max, ◌≡◌, refl, ap, sym, ◌∙◌, inl, inr, true, Option, none, some, List, [], ◌∷◌, ◌++◌,
  map, leb, ◌==◌, nat_eq, text_eq, text_beq_iff, Text, arith, keep, All, Bool-cases, ok, >>=-eq-ok,
}
use mathlib.Core.List.{append_assoc, append-nil}
use qq_bot_v.Events.Types.{
  MessageEvent, MailboxBacklog, BotEvent, message_event, mailbox_backlog, wake, bootstrap,
  scheduled_wake, background_task_completed, message_row_id,
}
use qq_bot_v.Mailbox.Plan.{
  MailboxCursors, direct, MailboxDisclosurePlan, mailbox_key_for_message, mailbox_key_for_event,
  cursor_at, plan_of, plan_event, plan_from, plan_mailbox_disclosures,
}
use qq_bot_v.Mailbox.Plan.Laws.{
  has_key, row_of, largest, ok_none-some, is_direct, cursor_at-plan_event, cursor_at-plan_from,
}

-- The rows that the events of mailboxes reach have been disclosed.
Covered : MailboxCursors → BotEvent → Type 0
Covered cursors e =
    (o : Option Text) × (mailbox_key_for_event e ≡ ok o)
    × ((j : Text) → o ≡ some j → row_of e ≤ cursor_at j cursors)

largest-above : (k : Text) (es : List BotEvent) (n : ℕ) → n ≤ largest k n es
largest-above k [] n = omega arith
largest-above k (e ∷ es) n = elim (Bool-cases (has_key k (mailbox_key_for_event e))) [
  | inl same ↦ rw same (omega (arith, largest-above k es (max n (row_of e))))
  | inr other ↦ rw other (largest-above k es n)
]

plan_from-Covered :
    (es : List BotEvent) (p q : MailboxDisclosurePlan)
    → plan_from p es ≡ ok q
    → All (Covered q.cursors) es
unfolding Covered
plan_from-Covered [] p q h = tt
plan_from-Covered (e ∷ es) p q h =
    let (o, key, h') = >>=-eq-ok (mailbox_key_for_event e) _ h in
    ((o, key, λ j is. reached j o key is h'), plan_from-Covered es (plan_event p e o) q h')
  where
    reached :
        (j : Text) (o : Option Text)
        → mailbox_key_for_event e ≡ ok o
        → o ≡ some j
        → plan_from (plan_event p e o) es ≡ ok q
        → row_of e ≤ cursor_at j q.cursors
    reached j o key is h' =
        let at = cursor_at-plan_from j es (plan_event p e o) q h' in
        let step = cursor_at-plan_event j p e o key in
        let self : (j == j) ≡ true = (text_beq_iff j j).1 refl in
        let same : has_key j (mailbox_key_for_event e) ≡ true = rw (key, is) self in
        let step' : cursor_at j (plan_event p e o).cursors
            ≡ max (cursor_at j p.cursors) (row_of e) =
          rw same at step in
        let above = largest-above j es (cursor_at j (plan_event p e o).cursors) in omega arith

message_has_key : (m : MessageEvent) → ¬ (mailbox_key_for_event (message_event m) ≡ ok none)
unfolding mailbox_key_for_event
message_has_key m h =
    let (k, _, e) = >>=-eq-ok (mailbox_key_for_message m) _ h in absurd (ok_none-some (sym e))

backlog_has_key : (b : MailboxBacklog) → ¬ (mailbox_key_for_event (mailbox_backlog b) ≡ ok none)
unfolding mailbox_key_for_event
backlog_has_key b h = absurd (ok_none-some (sym h))

plan_event-Covered :
    (p : MailboxDisclosurePlan) (e : BotEvent) (o : Option Text)
    → mailbox_key_for_event e ≡ ok o
    → ((j : Text) → o ≡ some j → row_of e ≤ cursor_at j p.cursors)
    → plan_event p e o ≡ plan_of (p.disclosures ++ map direct (keep is_direct (e ∷ []))) p.cursors
unfolding plan_event
plan_event-Covered p (message_event m) none h le = absurd (message_has_key m h)
plan_event-Covered p (message_event m) (some j) h le =
    let below : leb (message_row_id m) (cursor_at j p.cursors) ≡ true =
      (let l = le j refl in ground arith) in
    rw below (ap (λ ds. plan_of ds p.cursors) (sym (append-nil p.disclosures)))
plan_event-Covered p (mailbox_backlog b) none h le = absurd (backlog_has_key b h)
plan_event-Covered p (mailbox_backlog b) (some j) h le =
    let below : leb b.through_row_id (cursor_at j p.cursors) ≡ true =
      (let l = le j refl in ground arith) in
    rw below (ap (λ ds. plan_of ds p.cursors) (sym (append-nil p.disclosures)))
plan_event-Covered p wake none h le = refl
plan_event-Covered p bootstrap none h le = refl
plan_event-Covered p (scheduled_wake a b c) none h le = refl
plan_event-Covered p (background_task_completed a b c d e f) none h le = refl
plan_event-Covered p wake (some j) h le = refl
plan_event-Covered p bootstrap (some j) h le = refl
plan_event-Covered p (scheduled_wake a b c) (some j) h le = refl
plan_event-Covered p (background_task_completed a b c d e f) (some j) h le = refl

keep_direct-cons :
    (e : BotEvent) (es : List BotEvent)
    → map direct (keep is_direct (e ∷ [])) ++ map direct (keep is_direct es)
      ≡ map direct (keep is_direct (e ∷ es))
keep_direct-cons e es = elim (Bool-cases (is_direct e)) [
  | inl yes_direct ↦ rw yes_direct refl
  | inr not_direct ↦ rw not_direct refl
]

plan_from-again :
    (es : List BotEvent) (p : MailboxDisclosurePlan)
    → All (Covered p.cursors) es
    → plan_from p es ≡ ok (plan_of (p.disclosures ++ map direct (keep is_direct es)) p.cursors)
unfolding Covered
plan_from-again [] p h = ap (λ ds. ok (plan_of ds p.cursors)) (sym (append-nil p.disclosures))
plan_from-again (e ∷ es) p ((o, key, le), h) = rw key (
    ap (λ p. plan_from p es) (plan_event-Covered p e o key le)
    ∙ plan_from-again es (plan_of (p.disclosures ++ map direct (keep is_direct (e ∷ []))) p.cursors)
        h
    ∙ ap (λ ds. ok (plan_of ds p.cursors))
        (append_assoc p.disclosures (map direct (keep is_direct (e ∷ [])))
            (map direct (keep is_direct es))
          ∙ ap (λ t. p.disclosures ++ t) (keep_direct-cons e es)))

-- When the same events are planned again with the cursors that the first plan returned, no message
-- and no backlog is disclosed, only the events of no mailbox, and the cursors stay.
pub plan_mailbox_disclosures-again :
    (es : List BotEvent) (cursors : MailboxCursors) (p : MailboxDisclosurePlan)
    → plan_mailbox_disclosures es cursors ≡ ok p
    → plan_mailbox_disclosures es p.cursors
      ≡ ok (plan_of (map direct (keep is_direct es)) p.cursors)
unfolding plan_mailbox_disclosures
plan_mailbox_disclosures-again es cursors p h =
    plan_from-again es (plan_of [] p.cursors) (plan_from-Covered es (plan_of [] cursors) p h)

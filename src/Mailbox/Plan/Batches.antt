-- ===== src/Mailbox/Plan/Batches.antt =====
-- The messages of a batch are new and in the order of their row ids.
use qq_bot_v.Prelude.{
  ℕ, ◌≤◌, ◌<◌, ◌≡◌, refl, ap, sym, ◌∙◌, inl, inr, true, false, Option, none, some, List, [], ◌∷◌,
  ◌++◌, leb, ◌==◌, nat_eq, text_eq, text_beq_iff, insert, Text, arith, All, All-append, Bool-cases,
  ok, >>=-eq-ok, ok-injective,
}
use mathlib.Core.Path.{subst}
use qq_bot_v.Events.Types.{
  MessageEvent, MailboxBacklog, BotEvent, message_event, mailbox_backlog, wake, bootstrap,
  scheduled_wake, background_task_completed, message_row_id,
}
use qq_bot_v.Mailbox.Plan.{
  MailboxCursors, MailboxDisclosure, direct, mailbox, backlog, MailboxDisclosurePlan,
  mailbox_key_for_event, cursor_at, push_message, plan_of, plan_backlog, plan_message, plan_event,
  plan_from, plan_mailbox_disclosures,
}
use qq_bot_v.Mailbox.Plan.Laws.{cursor_at-insert}

-- Row ids that go up from above `low`, none above `high`.
abbrev pub RisesBetween : ℕ → List MessageEvent → ℕ → Type 0
RisesBetween low [] high = low ≤ high
RisesBetween low (m ∷ ms) high = (low < message_row_id m) × RisesBetween (message_row_id m) ms high

-- What is disclosed of a mailbox lies after its cursor before and not after its cursor now.
abbrev pub IsNew : MailboxCursors → MailboxCursors → MailboxDisclosure → Type 0
IsNew before now (direct e) = Unit
IsNew before now (mailbox k batch) = RisesBetween (cursor_at k before) batch (cursor_at k now)
IsNew before now (backlog b) =
    (cursor_at b.mailbox_key before < b.through_row_id)
    × (b.through_row_id ≤ cursor_at b.mailbox_key now)

RisesBetween-higher :
    (ms : List MessageEvent) (low high high' : ℕ)
    → high ≤ high'
    → RisesBetween low ms high
    → RisesBetween low ms high'
RisesBetween-higher [] low high high' le h = omega arith
RisesBetween-higher (m ∷ ms) low high high' le h =
    (h.0, RisesBetween-higher ms (message_row_id m) high high' le h.1)

RisesBetween-append :
    (ms : List MessageEvent) (m : MessageEvent) (low high : ℕ)
    → high < message_row_id m
    → RisesBetween low ms high
    → RisesBetween low (ms ++ m ∷ []) (message_row_id m)
RisesBetween-append [] m low high lt h = (omega arith, omega arith)
RisesBetween-append (n ∷ ms) m low high lt h =
    (h.0, RisesBetween-append ms m (message_row_id n) high lt h.1)

-- The cursors only go up.
abbrev Above : MailboxCursors → MailboxCursors → Type 0
Above now before = (k : Text) → cursor_at k before ≤ cursor_at k now

IsNew-higher :
    (before now now' : MailboxCursors) (d : MailboxDisclosure)
    → Above now' now
    → IsNew before now d
    → IsNew before now' d
IsNew-higher before now now' (direct e) up h = tt
IsNew-higher before now now' (mailbox k batch) up h =
    RisesBetween-higher batch (cursor_at k before) (cursor_at k now) (cursor_at k now') (up k) h
IsNew-higher before now now' (backlog b) up h = let u = up b.mailbox_key in (h.0, omega arith)

All-higher :
    (before now now' : MailboxCursors) (ds : List MailboxDisclosure)
    → Above now' now
    → All (IsNew before now) ds
    → All (IsNew before now') ds
All-higher before now now' [] up h = tt
All-higher before now now' (d ∷ ds) up h =
    (IsNew-higher before now now' d up h.0, All-higher before now now' ds up h.1)

insert-Above :
    (j : Text) (row : ℕ) (now : MailboxCursors)
    → leb row (cursor_at j now) ≡ false
    → Above (insert j row now) now
insert-Above j row now above k = elim (Bool-cases (j == k)) [
  | inl same ↦
      let e : j ≡ k = (text_beq_iff j k).0 same in
      let a : leb row (cursor_at k now) ≡ false =
        subst (λ i. leb row (cursor_at i now) ≡ false) e above in
      rw (cursor_at-insert k j row now) (rw same (ground arith))
  | inr other ↦ rw (cursor_at-insert k j row now) (rw other (omega arith))
]

insert_self : (j : Text) (row : ℕ) (now : MailboxCursors) → cursor_at j (insert j row now) ≡ row
insert_self j row now =
    let self : (j == j) ≡ true = (text_beq_iff j j).1 refl in
    cursor_at-insert j j row now ∙ rw self refl

module _ (before now : MailboxCursors) (key : Text) (m : MessageEvent) (up : Above now before)
    (above : leb (message_row_id m) (cursor_at key now) ≡ false) where
  abbrev later : MailboxCursors
  later = insert key (message_row_id m) now

  extended :
      (j : Text) (batch : List MessageEvent)
      → j ≡ key
      → RisesBetween (cursor_at j before) batch (cursor_at j now)
      → RisesBetween (cursor_at j before) (batch ++ m ∷ []) (cursor_at j later)
  extended j batch e h =
      let lt : cursor_at j now < message_row_id m =
        (let a : leb (message_row_id m) (cursor_at j now) ≡ false =
            subst (λ i. leb (message_row_id m) (cursor_at i now) ≡ false) (sym e) above in
          ground arith) in
      subst (λ high. RisesBetween (cursor_at j before) (batch ++ m ∷ []) high)
        (sym (ap (λ i. cursor_at i later) e ∙ insert_self key (message_row_id m) now))
        (RisesBetween-append batch m (cursor_at j before) (cursor_at j now) lt h)

  push_message-IsNew :
      (ds : List MailboxDisclosure)
      → All (IsNew before now) ds
      → All (IsNew before later) (push_message key m ds)
  push_message-IsNew [] h =
      let u = up key in
      let self = insert_self key (message_row_id m) now in ((ground arith, omega arith), tt)
  push_message-IsNew (direct e ∷ ds) h = (tt, push_message-IsNew ds h.1)
  push_message-IsNew (backlog b ∷ ds) h = (
    IsNew-higher before now later (backlog b) (insert-Above key (message_row_id m) now above) h.0,
    push_message-IsNew ds h.1,
  )
  push_message-IsNew (mailbox j batch ∷ ds) h = elim (Bool-cases (j == key)) [
    | inl same ↦ rw same (
      extended j batch ((text_beq_iff j key).0 same) h.0,
      All-higher before now later ds (insert-Above key (message_row_id m) now above) h.1,
    )
    | inr other ↦ rw other (
      IsNew-higher before now later (mailbox j batch)
          (insert-Above key (message_row_id m) now above) h.0,
      push_message-IsNew ds h.1,
    )
  ]

abbrev Sound : MailboxCursors → MailboxDisclosurePlan → Type 0
Sound before p = All (IsNew before p.cursors) p.disclosures × Above p.cursors before

direct-Sound :
    (before : MailboxCursors) (p : MailboxDisclosurePlan) (e : BotEvent)
    → Sound before p
    → Sound before (plan_of (p.disclosures ++ direct e ∷ []) p.cursors)
direct-Sound before p e (new, up) =
    (All-append (IsNew before p.cursors) p.disclosures (direct e ∷ []) new (tt, tt), up)

message-Sound :
    (before : MailboxCursors) (p : MailboxDisclosurePlan) (key : Text) (m : MessageEvent)
    → Sound before p
    → Sound before (plan_message p key m)
message-Sound before p key m (new, up) =
    elim (Bool-cases (leb (message_row_id m) (cursor_at key p.cursors))) [
      | inl below ↦ rw below (new, up)
      | inr above ↦ rw above (
        push_message-IsNew before p.cursors key m up above p.disclosures new,
        λ k.
            (let u = up k in
              let v = insert-Above key (message_row_id m) p.cursors above k in omega arith),
      )
    ]

backlog-Sound :
    (before : MailboxCursors) (p : MailboxDisclosurePlan) (b : MailboxBacklog)
    → Sound before p
    → Sound before (plan_backlog p b.mailbox_key b)
backlog-Sound before p b (new, up) =
    elim (Bool-cases (leb b.through_row_id (cursor_at b.mailbox_key p.cursors))) [
      | inl below ↦ rw below (new, up)
      | inr above ↦
          let higher = insert-Above b.mailbox_key b.through_row_id p.cursors above in
          let self = insert_self b.mailbox_key b.through_row_id p.cursors in
          let u = up b.mailbox_key in
          rw above (
            All-append (IsNew before (insert b.mailbox_key b.through_row_id p.cursors))
                p.disclosures (backlog b ∷ [])
                (All-higher before p.cursors (insert b.mailbox_key b.through_row_id p.cursors)
                  p.disclosures higher new)
                ((ground arith, omega arith), tt),
            λ k. (let u = up k in let v = higher k in omega arith),
          )
    ]

backlog-key :
    (b : MailboxBacklog) (key : Text)
    → mailbox_key_for_event (mailbox_backlog b) ≡ ok (some key)
    → b.mailbox_key ≡ key
unfolding mailbox_key_for_event
backlog-key b key h = cc

plan_event-Sound :
    (before : MailboxCursors) (p : MailboxDisclosurePlan) (e : BotEvent) (o : Option Text)
    → mailbox_key_for_event e ≡ ok o
    → Sound before p
    → Sound before (plan_event p e o)
unfolding plan_event
plan_event-Sound before p e none h s = direct-Sound before p e s
plan_event-Sound before p (message_event m) (some key) h s = message-Sound before p key m s
plan_event-Sound before p (mailbox_backlog b) (some key) h s =
    subst (λ k. Sound before (plan_backlog p k b)) (backlog-key b key h)
      (backlog-Sound before p b s)
plan_event-Sound before p wake (some key) h s = direct-Sound before p wake s
plan_event-Sound before p bootstrap (some key) h s = direct-Sound before p bootstrap s
plan_event-Sound before p (scheduled_wake a b c) (some key) h s =
    direct-Sound before p (scheduled_wake a b c) s
plan_event-Sound before p (background_task_completed a b c d e f) (some key) h s =
    direct-Sound before p (background_task_completed a b c d e f) s

plan_from-Sound :
    (before : MailboxCursors) (es : List BotEvent) (p q : MailboxDisclosurePlan)
    → plan_from p es ≡ ok q
    → Sound before p
    → Sound before q
plan_from-Sound before [] p q h s = subst (Sound before) (ok-injective h) s
plan_from-Sound before (e ∷ es) p q h s =
    let (o, key, h') = >>=-eq-ok (mailbox_key_for_event e) _ h in
    plan_from-Sound before es (plan_event p e o) q h' (plan_event-Sound before p e o key s)

-- What a plan discloses of a mailbox is new: the messages of a batch come in the order of their
-- row ids, all after the cursor that the mailbox had and none after the one that it has then, and
-- so do the backlogs. No cursor goes back.
pub plan_mailbox_disclosures-IsNew :
    (es : List BotEvent) (cursors : MailboxCursors) (p : MailboxDisclosurePlan)
    → plan_mailbox_disclosures es cursors ≡ ok p
    → All (IsNew cursors p.cursors) p.disclosures
      × ((k : Text) → cursor_at k cursors ≤ cursor_at k p.cursors)
unfolding plan_mailbox_disclosures
plan_mailbox_disclosures-IsNew es cursors p h =
    plan_from-Sound cursors es (plan_of [] cursors) p h (tt, λ k. omega arith)

-- ===== src/Mailbox/Continuity/Laws.antt =====
-- The recorded anchors over time: an engagement lasts.
use qq_bot_v.Prelude.{
  ℕ, ◌+◌, ◌≤◌, ◌≡◌, refl, sym, inl, inr, max, true, ◌&&◌, Option, none, some, List, [], ◌∷◌, ltb,
  leb, ◌==◌, nat_eq, text_eq, text_beq_iff, Text, lookup, insert, lookup-insert, Result, ok, err,
  guard, >>=-eq-ok, arith, Bool-cases, ok-injective,
}
use mathlib.Core.Path.{subst}
use qq_bot_v.Prelude.Values.{max_safe_integer}
use qq_bot_v.Mailbox.Keys.{is_mailbox_key}
use qq_bot_v.Mailbox.Continuity.{
  MailboxContinuityState, ContinuityError, record_mailbox_disclosure, record_mailbox_engagement,
  is_mailbox_engaged, record_mailbox_round, record_mailbox_compaction, engaged_of, last_of,
  set_anchor, anchor_now, reaches, or_else_zero,
}

-- The operations that record something.
pub data Operation : Type 0 where
  disclosed : Text → ℕ → Operation
  engaged : Text → ℕ → ℕ → Operation
  round : Option ℕ → Operation
  compacted : Operation

abbrev pub state_or :
    MailboxContinuityState → Result ContinuityError MailboxContinuityState → MailboxContinuityState
state_or s (ok s') = s'
state_or s (err e) = s

-- An engagement that is refused leaves the state as it is.
unfoldable pub step : Operation → MailboxContinuityState → MailboxContinuityState
step (disclosed key at) s = record_mailbox_disclosure s key at
step (engaged key now lease) s = state_or s (record_mailbox_engagement s key now lease)
step (round tokens) s = record_mailbox_round s tokens
step compacted s = record_mailbox_compaction s

abbrev pub run : List Operation → MailboxContinuityState → MailboxContinuityState
run [] s = s
run (op ∷ ops) s = run ops (step op s)

pub engagement-is :
    (s s' : MailboxContinuityState) (key : Text) (now lease : ℕ)
    → record_mailbox_engagement s key now lease ≡ ok s'
    → s'
      ≡ set_anchor s key (
          anchor_now s
            (max (last_of (lookup key s.mailboxes)) now)
            (some (max (or_else_zero (engaged_of (lookup key s.mailboxes))) (now + lease))))
unfolding record_mailbox_engagement
engagement-is s s' key now lease h =
    let (_, _, h1) = >>=-eq-ok (guard (is_mailbox_key key) _) _ h in
    let (_, _, h2) = >>=-eq-ok (guard (leb now max_safe_integer) _) _ h1 in
    let (_, _, h3) = >>=-eq-ok (guard (leb lease max_safe_integer && ltb 0 lease) _) _ h2 in
    let (_, _, h4) = >>=-eq-ok (guard (leb (now + lease) max_safe_integer) _) _ h3 in
    sym (ok-injective h4)

-- A property of a state that every record of an anchor, every round and compaction preserve.
module _ (P : MailboxContinuityState → Type 0)
    (anchored : (s : MailboxContinuityState) (key : Text) (at : ℕ) (until : Option ℕ)
      → ((t : ℕ) → reaches (engaged_of (lookup key s.mailboxes)) t ≡ true → reaches until t ≡ true)
      → P s
      → P (set_anchor s key (anchor_now s at until)))
    (rounded : (s : MailboxContinuityState) (tokens : Option ℕ)
      → P s
      → P (record_mailbox_round s tokens))
    (compacting : (s : MailboxContinuityState) → P s → P (record_mailbox_compaction s)) where
  step-preserves : (op : Operation) (s : MailboxContinuityState) → P s → P (step op s)
  unfolding step record_mailbox_disclosure
  step-preserves (disclosed key at) s h =
      elim (Bool-cases (ltb at (last_of (lookup key s.mailboxes)))) [
        | inl older ↦ rw older h
        | inr newer ↦
            rw newer (anchored s key at (engaged_of (lookup key s.mailboxes)) (λ t r. r) h)
      ]
  step-preserves (engaged key now lease) s h =
      by_result (record_mailbox_engagement s key now lease) refl
    where
      longer : (o : Option ℕ) (e t : ℕ) → reaches o t ≡ true → leb t (max (or_else_zero o) e) ≡ true
      longer none e t r = cc
      longer (some u) e t r = ground arith

      by_result :
          (r : Result ContinuityError MailboxContinuityState)
          → record_mailbox_engagement s key now lease ≡ r
          → P (state_or s r)
      by_result (err e) p = h
      by_result (ok s') p =
          subst P (sym (engagement-is s s' key now lease p))
            (anchored s key _ _ (longer (engaged_of (lookup key s.mailboxes)) (now + lease)) h)
  step-preserves (round tokens) s h = rounded s tokens h
  step-preserves compacted s h = compacting s h

  pub run-preserves : (ops : List Operation) (s : MailboxContinuityState) → P s → P (run ops s)
  run-preserves [] s h = h
  run-preserves (op ∷ ops) s h = run-preserves ops (step op s) (step-preserves op s h)

engaged-anchored :
    (j key : Text) (t : ℕ) (s : MailboxContinuityState) (at : ℕ) (until : Option ℕ)
    → ((t : ℕ) → reaches (engaged_of (lookup key s.mailboxes)) t ≡ true → reaches until t ≡ true)
    → reaches (engaged_of (lookup j s.mailboxes)) t ≡ true
    → reaches (engaged_of (lookup j (insert key (anchor_now s at until) s.mailboxes))) t ≡ true
engaged-anchored j key t s at until longer h =
    rw (lookup-insert j key (anchor_now s at until) s.mailboxes) (elim (Bool-cases (key == j)) [
      | inl same ↦ rw same (
          longer t (
            subst (λ k. reaches (engaged_of (lookup k s.mailboxes)) t ≡ true)
              (sym ((text_beq_iff key j).0 same)) h))
      | inr other ↦ rw other h
    ])

-- A mailbox that is engaged until a time stays so, whatever is recorded.
pub run-is_mailbox_engaged :
    (ops : List Operation) (s : MailboxContinuityState) (key : Text) (t : ℕ)
    → is_mailbox_engaged s key t ≡ true
    → is_mailbox_engaged (run ops s) key t ≡ true
unfolding is_mailbox_engaged record_mailbox_round record_mailbox_compaction
run-is_mailbox_engaged ops s key t h =
    run-preserves (λ s. reaches (engaged_of (lookup key s.mailboxes)) t ≡ true)
      (λ s k at until longer h. engaged-anchored key k t s at until longer h) (λ s tokens h. h)
      (λ s h. h) ops s h

engaged_up_to :
    (s : MailboxContinuityState) (key : Text) (now lease t : ℕ)
    → t ≤ now + lease
    → is_mailbox_engaged
        (set_anchor s key (
          anchor_now s
            (max (last_of (lookup key s.mailboxes)) now)
            (some (max (or_else_zero (engaged_of (lookup key s.mailboxes))) (now + lease)))))
        key
        t
      ≡ true
unfolding is_mailbox_engaged
engaged_up_to s key now lease t le =
    let self : (key == key) ≡ true = (text_beq_iff key key).1 refl in
    rw
      (lookup-insert key key
        (anchor_now s (max (last_of (lookup key s.mailboxes)) now)
          (some (max (or_else_zero (engaged_of (lookup key s.mailboxes))) (now + lease))))
        s.mailboxes)
      (rw self (ground arith))

-- Once an engagement is recorded, the mailbox is engaged at every time up to the end of the
-- lease, whatever is recorded after it.
pub record_mailbox_engagement-lasts :
    (s s' : MailboxContinuityState) (key : Text) (now lease t : ℕ) (ops : List Operation)
    → record_mailbox_engagement s key now lease ≡ ok s'
    → t ≤ now + lease
    → is_mailbox_engaged (run ops s') key t ≡ true
record_mailbox_engagement-lasts s s' key now lease t ops h le =
    run-is_mailbox_engaged ops s' key t
      (rw (engagement-is s s' key now lease h) (engaged_up_to s key now lease t le))

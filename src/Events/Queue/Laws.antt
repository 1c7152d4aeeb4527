-- ===== src/Events/Queue/Laws.antt =====
-- No one waits in the queue for something that is there already, and an event resolves those who wait for it.
use qq_bot_v.Prelude.{
  ℕ, ◌≡◌, refl, ap, inl, inr, Bool, true, false, not, List, [], ◌∷◌, ◌++◌, length-append, any, keep,
  ◌==◌, nat_eq, arith, All, All-append, Bool-cases,
}
use qq_bot_v.Events.Queue.{
  Predicate, not_empty, has_where, Waiter, EventQueue, holds, ids, empty_queue, enqueue, dequeue,
  clear, wait_for_events, abort, rest_of,
}

module _ (E : Type 0) where
  pub data Operation : Type 0 where
    enqueued : E → Operation
    dequeued cleared : Operation
    waited : ℕ → Predicate E → Bool → Operation
    aborted : ℕ → Operation

module _ {E : Type 0} where
  unfoldable pub step : Operation E → EventQueue E → EventQueue E
  step (enqueued e) q = (enqueue q e).1.1
  step dequeued q = (dequeue q).1
  step cleared q = (clear q).1
  step (waited id predicate abort_first) q = (wait_for_events q id predicate abort_first).1
  step (aborted id) q = abort q id

  abbrev pub run : List (Operation E) → EventQueue E → EventQueue E
  run [] q = q
  run (op ∷ ops) q = run ops (step op q)

  -- What the waiters in the queue wait for does not hold.
  abbrev pub Settled : EventQueue E → Type 0
  Settled q = All (λ w. holds w.predicate q.events ≡ false) q.waiters

  keep-not :
      (events : List E) (ws : List (Waiter E))
      → All (λ w. holds w.predicate events ≡ false) (keep (λ w. not (holds w.predicate events)) ws)
  keep-not events [] = tt
  keep-not events (w ∷ ws) = elim (Bool-cases (holds w.predicate events)) [
    | inl now ↦ rw now (keep-not events ws)
    | inr later ↦ rw later (later, keep-not events ws)
  ]

  holds-rest : (p : Predicate E) (es : List E) → holds p es ≡ false → holds p (rest_of es) ≡ false
  holds-rest p [] h = h
  holds-rest not_empty (e ∷ es) h = absurd (ground (arith, h))
  holds-rest (has_where p) (e ∷ es) h = ground (arith, h)

  holds-none : (p : Predicate E) → holds p [] ≡ false
  holds-none not_empty = refl
  holds-none (has_where p) = refl

  All-rest :
      (ws : List (Waiter E)) (es : List E)
      → All (λ w. holds w.predicate es ≡ false) ws
      → All (λ w. holds w.predicate (rest_of es) ≡ false) ws
  All-rest [] es h = tt
  All-rest (w ∷ ws) es h = (holds-rest w.predicate es h.0, All-rest ws es h.1)

  All-none : (ws : List (Waiter E)) → All (λ w. holds w.predicate [] ≡ false) ws
  All-none [] = tt
  All-none (w ∷ ws) = (holds-none w.predicate, All-none ws)

  All-keep :
      (P : Waiter E → Type 0) (p : Waiter E → Bool) (ws : List (Waiter E))
      → All P ws
      → All P (keep p ws)
  All-keep P p [] h = tt
  All-keep P p (w ∷ ws) h = elim (Bool-cases (p w)) [
    | inl kept ↦ rw kept (h.0, All-keep P p ws h.1)
    | inr dropped ↦ rw dropped (All-keep P p ws h.1)
  ]

  wait-Settled :
      (q : EventQueue E) (id : ℕ) (p : Predicate E) (gone : Bool)
      → Settled q
      → Settled (wait_for_events q id p gone).1
  unfolding wait_for_events
  wait-Settled q id p gone h = elim (Bool-cases (holds p q.events)) [
    | inl now ↦ rw now h
    | inr later ↦ elim (Bool-cases gone) [
      | inl gone ↦ rw (later, gone) h
      | inr stays ↦
          rw (later, stays)
            (All-append (λ w. holds w.predicate q.events ≡ false) q.waiters _ h (later, tt))
    ]
  ]

  step-Settled : (op : Operation E) (q : EventQueue E) → Settled q → Settled (step op q)
  unfolding step enqueue dequeue clear wait_for_events abort
  step-Settled (enqueued e) q h = keep-not (q.events ++ e ∷ []) q.waiters
  step-Settled dequeued q h = All-rest q.waiters q.events h
  step-Settled cleared q h = All-none q.waiters
  step-Settled (waited id p abort_first) q h = wait-Settled q id p abort_first h
  step-Settled (aborted id) q h =
      All-keep (λ w. holds w.predicate q.events ≡ false) (λ w. not (w.id == id)) q.waiters h

  -- Whatever is done with a new queue, no one waits in it for what its events hold already.
  pub run-Settled : (ops : List (Operation E)) → Settled (run ops empty_queue)
  unfolding empty_queue
  run-Settled ops = from ops (record { events = []; waiters = [] }) tt
    where
      from : (ops : List (Operation E)) (q : EventQueue E) → Settled q → Settled (run ops q)
      from [] q h = h
      from (op ∷ ops) q h = from ops (step op q) (step-Settled op q h)

  -- What is new for one who waits: any event, or one that the predicate is true of.
  abbrev pub wants : Predicate E → E → Bool
  wants not_empty e = true
  wants (has_where p) e = p e

  any-append_one :
      (p : E → Bool) (es : List E) (e : E) → any p es ≡ false → any p (es ++ e ∷ []) ≡ p e
  any-append_one p [] e h = ground arith
  any-append_one p (x ∷ es) e h = ground (arith, any-append_one p es e, h)

  holds-wants :
      (p : Predicate E) (es : List E) (e : E)
      → holds p es ≡ false
      → holds p (es ++ e ∷ []) ≡ wants p e
  holds-wants not_empty es e h = ground (arith, length-append es (e ∷ []))
  holds-wants (has_where p) es e h = any-append_one p es e h

  keep-wants :
      (f : Bool → Bool) (es : List E) (e : E) (ws : List (Waiter E))
      → All (λ w. holds w.predicate es ≡ false) ws
      → keep (λ w. f (holds w.predicate (es ++ e ∷ []))) ws ≡ keep (λ w. f (wants w.predicate e)) ws
  keep-wants f es e [] h = refl
  keep-wants f es e (w ∷ ws) h =
      rw (holds-wants w.predicate es e h.0, keep-wants f es e ws h.1) refl

  -- Whatever was done with a new queue, an event goes to the end of its events, and it resolves
  -- exactly those who wait for any event or for one like this, whatever came before: the others
  -- go on waiting, in their order.
  pub enqueue-splits :
      (ops : List (Operation E)) (e : E)
      → let q = run ops empty_queue in
        ((enqueue q e).1.1.events ≡ q.events ++ e ∷ [])
        × ((enqueue q e).1.0 ≡ ids (keep (λ w. wants w.predicate e) q.waiters))
        × ((enqueue q e).1.1.waiters ≡ keep (λ w. not (wants w.predicate e)) q.waiters)
  unfolding enqueue
  enqueue-splits ops e =
      let q = run ops empty_queue in
      let settled = run-Settled ops in
      (
        refl,
        ap ids (keep-wants (λ b. b) q.events e q.waiters settled),
        keep-wants not q.events e q.waiters settled,
      )

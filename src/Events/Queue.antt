-- ===== src/Events/Queue.antt =====
-- The queue in memory and those who wait for its events (src/agent/event-queue.ts:
-- InMemoryEventQueue). A waiter is known by a number; what an operation resolves is a list of them.
pub mod Laws
use qq_bot_v.Prelude.{
  ℕ, ◌+◌, Bool, true, false, not, Option, none, some, List, [], ◌∷◌, ◌++◌, length, any, keep, map,
  ltb, ◌==◌, nat_eq, if◌then◌else◌,
}

module _ (E : Type 0) where
  -- The two predicates that the waits are made with.
  pub data Predicate : Type 0 where
    not_empty : Predicate
    has_where : (E → Bool) → Predicate

  pub record Waiter : Type 0 where
    pub id : ℕ
    pub predicate : Predicate

  pub record EventQueue : Type 0 where
    pub events : List E
    pub waiters : List Waiter

module _ {E : Type 0} where
  abbrev pub holds : Predicate E → List E → Bool
  holds not_empty events = ltb 0 (length events)
  holds (has_where p) events = any p events

  abbrev pub ids : List (Waiter E) → List ℕ
  ids ws = map (λ w. w.id) ws

  unfoldable pub empty_queue : EventQueue E
  empty_queue = record { events = []; waiters = [] }

  -- The number of events, those who are resolved, and the queue.
  unfoldable pub enqueue : EventQueue E → E → ℕ × (List ℕ × EventQueue E)
  enqueue q event =
      let events = q.events ++ event ∷ [] in
      (
        length events,
        (
          ids (keep (λ w. holds w.predicate events) q.waiters),
          record {
            events = events;
            waiters = keep (λ w. not (holds w.predicate events)) q.waiters;
          },
        ),
      )

  abbrev first_of : List E → Option E
  first_of [] = none
  first_of (e ∷ es) = some e

  abbrev rest_of : List E → List E
  rest_of [] = []
  rest_of (e ∷ es) = es

  unfoldable pub dequeue : EventQueue E → Option E × EventQueue E
  dequeue q = (first_of q.events, record q { events = rest_of q.events })

  unfoldable pub size : EventQueue E → ℕ
  size q = length q.events

  unfoldable pub clear : EventQueue E → ℕ × EventQueue E
  clear q = (length q.events, record q { events = [] })

  -- `true` where the wait is over at once.
  unfoldable pub wait_for_events : EventQueue E → ℕ → Predicate E → Bool → Bool × EventQueue E
  wait_for_events q id predicate aborted =
      if holds predicate q.events then (true, q) else if aborted then (true, q) else (
        false,
        record q { waiters = q.waiters ++ record { id = id; predicate = predicate } ∷ [] },
      )

  unfoldable pub wait_for_event : EventQueue E → ℕ → Bool → Bool × EventQueue E
  unfolding wait_for_events
  wait_for_event q id aborted = wait_for_events q id not_empty aborted

  unfoldable pub wait_for_event_where : EventQueue E → ℕ → (E → Bool) → Bool → Bool × EventQueue E
  unfolding wait_for_events
  wait_for_event_where q id p aborted = wait_for_events q id (has_where p) aborted

  -- The abort of a waiter's signal: it is taken out and resolved.
  unfoldable pub abort : EventQueue E → ℕ → EventQueue E
  abort q id = record q { waiters = keep (λ w. not (w.id == id)) q.waiters }

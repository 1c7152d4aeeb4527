-- ===== src/Examples/Events.antt =====
-- The theorems on the queue and on the removal of duplicates.
use qq_bot_v.Prelude.{ℕ, ◌≡◌, false, not, List, [], ◌∷◌, ◌++◌, keep, has, nat_eq, text, ltb, All}
use qq_bot_v.Events.Types.{BotEvent, message_event, napcat_private_message, wake}
use qq_bot_v.Events.Queue.{EventQueue, not_empty, has_where, holds, ids, empty_queue, enqueue}
use qq_bot_v.Events.Queue.Laws.{
  Operation, enqueued, dequeued, waited, run, run-Settled, wants, enqueue-splits,
}
use qq_bot_v.Events.Dedup.{create_dedup_enqueue}
use qq_bot_v.Events.Dedup.Laws.{
  enqueue_all, Subsequence, Distinct, rows, is_control, enqueue_all-Distinct,
}

abbrev two_waiters : EventQueue ℕ
two_waiters = record {
  events = [];
  waiters =
      record { id = 1; predicate = not_empty }
      ∷ record { id = 2; predicate = has_where (λ n. ltb 5 n) }
      ∷ [];
}

abbrev some_operations : List (Operation ℕ)
some_operations =
    waited 1 not_empty false
    ∷ enqueued 3
    ∷ waited 2 (has_where (λ n. ltb 5 n)) false
    ∷ dequeued
    ∷ []

run-Settled_example :
    All
      (λ w. holds w.predicate (run some_operations empty_queue).events ≡ false)
      (run some_operations empty_queue).waiters
run-Settled_example = run-Settled some_operations

enqueue-splits_example :
    let q = run some_operations empty_queue in
    ((enqueue q 3).1.1.events ≡ q.events ++ 3 ∷ [])
    × ((enqueue q 3).1.0 ≡ ids (keep (λ w. wants w.predicate 3) q.waiters))
    × ((enqueue q 3).1.1.waiters ≡ keep (λ w. not (wants w.predicate 3)) q.waiters)
enqueue-splits_example = enqueue-splits some_operations 3

abbrev private_message : ℕ → BotEvent
private_message row = message_event (
    napcat_private_message (record {
      message_row_id = row;
      peer_id = 5;
      message_id = 1;
      sender_id = 5;
      sender_nickname = text "n";
      sent_at = 0;
      rendered_text = text "x";
    }))

abbrev arriving : List BotEvent
arriving = private_message 1 ∷ wake ∷ private_message 1 ∷ private_message 2 ∷ []

enqueue_all-Distinct_example :
    (added : List BotEvent) × ((enqueue_all
        (create_dedup_enqueue empty_queue)
        arriving).queue.events
      ≡ empty_queue.events ++ added)
    × Subsequence added arriving
    × Distinct (rows added)
    × ((r : ℕ) → has r (rows added) ≡ has r (rows arriving))
    × (keep is_control added ≡ keep is_control arriving)
enqueue_all-Distinct_example = enqueue_all-Distinct arriving empty_queue

-- ===== src/Examples/Jobs.antt =====
-- The theorems on the job queue, with a job that fails once and one of a higher priority.
use qq_bot_v.Prelude.{
  ℕ, ◌+◌, ◌≡◌, refl, Bool, true, false, none, some, List, [], ◌∷◌, ◌++◌, Text, text, keep, arith,
}
use qq_bot_v.Prelude.Values.{null}
use qq_bot_v.Jobs.Queue.{
  QueuedJob, JobPriority, high, normal, low, JobEnqueueOptions, create_memory_queue,
  push_by_priority,
}
use qq_bot_v.Jobs.Queue.Order.{at_least, below, push_by_priority-splits}
use qq_bot_v.Jobs.Queue.Runs.{
  Operation, enqueued, registered, begun, ticked, retried, handler_ended, run, step,
}
use qq_bot_v.Jobs.Queue.Awake.{Sound}
use qq_bot_v.Jobs.Queue.Laws.{run-Sound}
use qq_bot_v.Jobs.Queue.Balance.{waiting, asked, counted, happens, succeeds, fails, forgotten}
use qq_bot_v.Jobs.Queue.Waiters.{run-waiting}

abbrev job : ℕ → JobPriority → QueuedJob
job id priority = record {
  id = id;
  type = text "media";
  job_data = null;
  created_at = 0;
  attempts = 0;
  priority = priority;
  waiters = [];
  max_attempts = 3;
}

push_by_priority-splits_example :
    push_by_priority (job 1 high ∷ job 2 normal ∷ job 3 low ∷ []) (job 4 normal)
    ≡ keep (at_least (job 4 normal)) (job 1 high ∷ job 2 normal ∷ job 3 low ∷ [])
      ++ job 4 normal ∷ keep (below (job 4 normal)) (job 1 high ∷ job 2 normal ∷ job 3 low ∷ [])
push_by_priority-splits_example =
    push_by_priority-splits (job 1 high ∷ job 2 normal ∷ job 3 low ∷ []) (job 4 normal)
      ((omega arith, (omega arith, tt)), ((omega arith, tt), (tt, tt)))

abbrev options : JobPriority → JobEnqueueOptions
options priority = record { priority = some priority; max_attempts = none }

abbrev some_operations : List Operation
some_operations =
    registered (text "media")
    ∷ enqueued (text "media") null 0 (options low) (5 ∷ [])
    ∷ begun
    ∷ ticked
    ∷ handler_ended true
    ∷ enqueued (text "media") null 1 (options high) (6 ∷ [])
    ∷ retried
    ∷ ticked
    ∷ handler_ended false
    ∷ []

run-Sound_example : Sound (run 10 some_operations create_memory_queue)
run-Sound_example = run-Sound 10 some_operations

run-waiting_example :
    (waiting 5 (run 10 some_operations create_memory_queue)
        + (counted (λ t. t.resolved) 5 10 some_operations create_memory_queue
            + (counted (λ t. t.rejected) 5 10 some_operations create_memory_queue
                + counted (λ t. t.abandoned) 5 10 some_operations create_memory_queue))
      ≡ waiting 5 create_memory_queue + asked 5 some_operations)
    × ((counted (λ t. t.resolved) 5 10 some_operations create_memory_queue
          ≡ happens succeeds 5 10 some_operations create_memory_queue)
        × ((counted (λ t. t.rejected) 5 10 some_operations create_memory_queue
              ≡ happens fails 5 10 some_operations create_memory_queue)
            × (counted (λ t. t.abandoned) 5 10 some_operations create_memory_queue
                ≡ happens forgotten 5 10 some_operations create_memory_queue)))
run-waiting_example = run-waiting 5 10 some_operations create_memory_queue

abbrev all_steps : List ℕ
all_steps =
    counted (λ t. t.resolved) 6 10 some_operations create_memory_queue
    ∷ counted (λ t. t.resolved) 5 10 some_operations create_memory_queue
    ∷ waiting 5 (run 10 some_operations create_memory_queue)
    ∷ []

-- The job of the higher priority is worked on first, the other one still waits.
settled_in_order : all_steps ≡ 1 ∷ 0 ∷ 1 ∷ []
unfolding step qq_bot_v.Jobs.Queue.tick qq_bot_v.Jobs.Queue.finish_handler
    qq_bot_v.Jobs.Queue.start_queue qq_bot_v.Jobs.Queue.enqueue_job
    qq_bot_v.Jobs.Queue.register_handler qq_bot_v.Prelude.text_beq qq_bot_v.Jobs.Queue.retry
settled_in_order = refl

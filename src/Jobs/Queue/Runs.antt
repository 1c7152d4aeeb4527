-- ===== src/Jobs/Queue/Runs.antt =====
-- Runs of the job queue: operations in any order, with all that they settle.
use qq_bot_v.Prelude.{ℕ, Bool, List, [], ◌∷◌, Text}
use qq_bot_v.Prelude.Values.{Value}
use qq_bot_v.Jobs.Queue.{
  JobEnqueueOptions, JobQueue, SettledWaiters, nothing, enqueue_job, register_handler, start_queue,
  stop_queue, tick, finish_handler, retry,
}

pub data Operation : Type 0 where
  enqueued : Text → Value → ℕ → JobEnqueueOptions → List ℕ → Operation
  registered : Text → Operation
  begun ended ticked retried : Operation
  handler_ended : Bool → Operation

module _ (inter_job_delay_ms : ℕ) where
  unfoldable pub step : Operation → JobQueue → JobQueue × SettledWaiters
  step (enqueued type job_data now options waiters) s =
      ((enqueue_job s type job_data now options waiters).1, nothing)
  step (registered type) s = (register_handler s type, nothing)
  step begun s = (start_queue s, nothing)
  step ended s = (stop_queue s, nothing)
  step ticked s = tick s
  step retried s = retry s
  step (handler_ended failed) s = finish_handler failed inter_job_delay_ms s

  abbrev pub run : List Operation → JobQueue → JobQueue
  run [] s = s
  run (op ∷ ops) s = run ops (step op s).0

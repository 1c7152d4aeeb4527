-- ===== src/Jobs/Queue/Laws.antt =====
-- What every operation of the job queue keeps: the order, the limits of the attempts, and a timer
-- while the queue runs.
use qq_bot_v.Prelude.{
  ℕ, ◌≤◌, ◌≡◌, refl, ◌⊎◌, inl, inr, Bool, true, false, not, ◌||◌, Option, none, some, List, [], ◌∷◌,
  ◌++◌, leb, has, text_eq, All, All-append, if_each, arith,
}
use qq_bot_v.Jobs.Queue.{
  QueuedJob, poll_interval_ms, JobQueue, SettledWaiters, create_memory_queue, resolve_max_attempts,
  resolve_priority, push_by_priority, schedule_tick, is_processing, enqueue_job, register_handler,
  stop_queue, take_job, fire, end_handling, retry_first, tick, handled, finish_handler, retry,
}
use qq_bot_v.Jobs.Queue.Order.{Ordered, push_by_priority-Ordered}
use qq_bot_v.Jobs.Queue.Runs.{
  Operation, enqueued, registered, begun, ended, ticked, retried, handler_ended, step, run,
}
use qq_bot_v.Jobs.Queue.Awake.{
  MayTry, IsTried, Sound, push_by_priority-MayTry, schedule_tick-Sound,
  resolve_max_attempts-positive, enqueue_with-Sound, start_queue-Sound,
}

-- What an operation leaves.
abbrev Leaves : JobQueue × SettledWaiters → Type 0
Leaves p = Sound p.0

take_job-Sound :
    (s : JobQueue) (qs : List QueuedJob)
    → Ordered s.queue
    → All MayTry s.queue
    → Ordered qs
    → All MayTry qs
    → IsTried s.handling
    → All MayTry s.retries
    → Leaves (take_job s qs)
take_job-Sound s [] o q o' q' t r = schedule_tick-Sound poll_interval_ms s o q t r
take_job-Sound s (job ∷ rest) o q o' q' t r =
    if_each Leaves (has job.type s.handlers) _ _
      (λ known. record {
        ordered = o'.1;
        queued = q'.1;
        tried = (omega arith, omega (arith, q'.0));
        retrying = r;
        awake = inr (inl refl);
      })
      (λ unknown. schedule_tick-Sound 0 (record s { queue = rest }) o'.1 q'.1 t r)

fire-Sound : (s : JobQueue) (timer : Option ℕ) → Sound s → Leaves (fire s timer)
fire-Sound s none h = h
fire-Sound s (some delay) h =
    if_each Leaves (not s.running || is_processing s) _ _
      (λ idle. record {
        ordered = h.ordered;
        queued = h.queued;
        tried = h.tried;
        retrying = h.retrying;
        awake = asleep s.running (is_processing s) idle;
      })
      (λ free.
        take_job-Sound (record s { timer = none }) s.queue h.ordered h.queued h.ordered h.queued
          h.tried h.retrying)
  where
    asleep :
        (a b : Bool)
        → (not a || b) ≡ true
        → (a ≡ false) ⊎ ((b ≡ true) ⊎ ((delay : ℕ) × (◌≡◌ {A = Option ℕ} none (some delay))))
    asleep false b h = inl refl
    asleep true b h = inr (inl h)

handled-Sound :
    (delay : ℕ) (failed : Bool) (job : QueuedJob) (s : JobQueue)
    → job.attempts ≤ job.max_attempts
    → Ordered s.queue
    → All MayTry s.queue
    → IsTried s.handling
    → All MayTry s.retries
    → Sound (schedule_tick delay (handled failed job s).0)
handled-Sound delay failed job s low o q t r =
    if_each Then (not failed) _ _ (λ good. schedule_tick-Sound delay s o q t r)
      (λ bad.
        if_each Then (leb job.max_attempts job.attempts) _ _
          (λ last. schedule_tick-Sound delay s o q t r)
          (λ again.
            schedule_tick-Sound delay (record s { retries = s.retries ++ job ∷ [] }) o q t
              (All-append MayTry s.retries (job ∷ []) r (ground (arith, again, low), tt))))
  where
    Then : JobQueue × SettledWaiters → Type 0
    Then p = Sound (schedule_tick delay p.0)

end_handling-Sound :
    (failed : Bool) (delay : ℕ) (s : JobQueue) (o : Option QueuedJob)
    → IsTried o
    → Sound s
    → Leaves (end_handling failed delay s o)
end_handling-Sound failed delay s none t h = h
end_handling-Sound failed delay s (some job) t h =
    handled-Sound delay failed job (record s { handling = none }) t.1 h.ordered h.queued tt
      h.retrying

retry_first-Sound :
    (s : JobQueue) (rs : List QueuedJob) → All MayTry rs → Sound s → Leaves (retry_first s rs)
retry_first-Sound s [] r h = h
retry_first-Sound s (job ∷ rest) r h =
    if_each Leaves s.running _ _
      (λ runs.
        schedule_tick-Sound 0 (record s { queue = push_by_priority s.queue job; retries = rest })
          (push_by_priority-Ordered s.queue job h.ordered)
          (push_by_priority-MayTry s.queue job r.0 h.queued) h.tried r.1)
      (λ rests. record {
        ordered = h.ordered;
        queued = h.queued;
        tried = h.tried;
        retrying = r.1;
        awake = inl rests;
      })

step-Sound : (delay : ℕ) (op : Operation) (s : JobQueue) → Sound s → Sound (step delay op s).0
unfolding step enqueue_job register_handler stop_queue tick retry finish_handler
step-Sound delay (enqueued type job_data now options waiters) s h =
    enqueue_with-Sound s type job_data now (resolve_priority options) waiters
      (resolve_max_attempts options) (resolve_max_attempts-positive options) h
step-Sound delay (registered type) s h = record {
  ordered = h.ordered;
  queued = h.queued;
  tried = h.tried;
  retrying = h.retrying;
  awake = h.awake;
}
step-Sound delay begun s h = start_queue-Sound s h
step-Sound delay ended s h = record {
  ordered = h.ordered;
  queued = h.queued;
  tried = h.tried;
  retrying = h.retrying;
  awake = inl refl;
}
step-Sound delay ticked s h = fire-Sound s s.timer h
step-Sound delay retried s h = retry_first-Sound s s.retries h.retrying h
step-Sound delay (handler_ended failed) s h = end_handling-Sound failed delay s s.handling h.tried h

run-from : (delay : ℕ) (ops : List Operation) (s : JobQueue) → Sound s → Sound (run delay ops s)
run-from delay [] s h = h
run-from delay (op ∷ ops) s h = run-from delay ops (step delay op s).0 (step-Sound delay op s h)

-- Whatever is done with a new job queue, no job stands before one of a higher priority, every job
-- that is queued or waits for its retry has attempts left, the job in a handler is within them,
-- and the queue does not stall: while it runs, a handler is at work or a tick is set.
pub run-Sound : (delay : ℕ) (ops : List Operation) → Sound (run delay ops create_memory_queue)
run-Sound delay ops =
    run-from delay ops create_memory_queue
      (record { ordered = tt; queued = tt; tried = tt; retrying = tt; awake = inl refl })

-- ===== src/Jobs/Queue/Waiters.antt =====
-- What becomes of every waiter: it waits, or it is resolved, rejected or forgotten, and why.
use qq_bot_v.Prelude.{
  ℕ, ◌+◌, ◌≡◌, refl, Bool, true, false, Option, none, some, List, [], ◌∷◌, leb, nat_eq, has,
  text_eq, if◌then◌else◌, if_each, Bool-cases, Option-cases, inl, inr, arith,
}
use qq_bot_v.Jobs.Queue.{
  QueuedJob, JobQueue, SettledWaiters, is_processing, enqueue_job, register_handler, stop_queue,
  take_job, fire, tick, handled, end_handling, finish_handler, retry_first, retry,
}
use qq_bot_v.Jobs.Queue.Runs.{
  Operation, enqueued, registered, begun, ended, ticked, retried, handler_ended, step, run,
}
use qq_bot_v.Jobs.Queue.Balance.{
  times, waiting, asked, counted, in_first, succeeds, has_no_handler, fails, forgotten, happens,
  step-waiting, asked_first,
}

-- What the operation settles has the reasons that it states.
abbrev Reasons : ℕ → Operation → JobQueue → SettledWaiters → Type 0
Reasons w op s t =
    (times w t.resolved ≡ succeeds w op s)
    × ((times w t.rejected ≡ fails w op s) × (times w t.abandoned ≡ forgotten w op s))

handled-Reasons :
    (w : ℕ) (failed : Bool) (job : QueuedJob) (s r : JobQueue)
    → s.handling ≡ some job
    → Reasons w (handler_ended failed) s (handled failed job r).1
handled-Reasons w false job s r e = rw e (refl, (refl, refl))
handled-Reasons w true job s r e = rw e (
    if_each
      (λ (p : JobQueue × SettledWaiters).
        (times w p.1.resolved ≡ 0)
        × ((times w p.1.rejected
              ≡ (if leb job.max_attempts job.attempts then times w job.waiters else 0))
            × (times w p.1.abandoned ≡ 0)))
      (leb job.max_attempts job.attempts) _ _ (λ last. (refl, (rw last refl, refl)))
      (λ again. (refl, (rw again refl, refl))))

end_handling-Reasons :
    (w : ℕ) (failed : Bool) (delay : ℕ) (s : JobQueue) (o : Option QueuedJob)
    → s.handling ≡ o
    → Reasons w (handler_ended failed) s (end_handling failed delay s o).1
end_handling-Reasons w false delay s none e = rw e (refl, (refl, refl))
end_handling-Reasons w true delay s none e = rw e (refl, (refl, refl))
end_handling-Reasons w failed delay s (some job) e =
    handled-Reasons w failed job s (record s { handling = none }) e

-- What a tick rejects: the waiters of the first job, where it has no handler.
take_job-rejects :
    (w : ℕ) (s : JobQueue) (qs : List QueuedJob)
    → (times w (take_job s qs).1.resolved ≡ 0)
      × ((times w (take_job s qs).1.rejected
            ≡ (if has_no_handler s.handlers qs then in_first w qs else 0))
          × (times w (take_job s qs).1.abandoned ≡ 0))
take_job-rejects w s [] = (refl, (refl, refl))
take_job-rejects w s (job ∷ rest) = elim (Bool-cases (has job.type s.handlers)) [
  | inl known ↦ rw known (refl, (refl, refl))
  | inr unknown ↦ rw unknown (refl, (refl, refl))
]

fire-Reasons : (w : ℕ) (s : JobQueue) → Reasons w ticked s (fire s s.timer).1
fire-Reasons w s = elim (Option-cases s.timer) [
  | inl off ↦ rw off (refl, (refl, refl))
  | inr (delay, on) ↦ elim (Bool-cases s.running) [
    | inr rests ↦ rw (on, rests) (refl, (refl, refl))
    | inl runs ↦ elim (Bool-cases (is_processing s)) [
      | inl busy ↦ rw (on, runs, busy) (refl, (refl, refl))
      | inr free ↦
          rw (on, runs, free)
            (take_job-rejects w (record s { timer = none; running = true }) s.queue)
    ]
  ]
]

retry_first-Reasons :
    (w : ℕ) (s : JobQueue) (rs : List QueuedJob)
    → (times w (retry_first s rs).1.resolved ≡ 0)
      × ((times w (retry_first s rs).1.rejected ≡ 0)
          × (times w (retry_first s rs).1.abandoned ≡ (if s.running then 0 else in_first w rs)))
retry_first-Reasons w s [] = (refl, (refl, ground arith))
retry_first-Reasons w s (job ∷ rest) = elim (Bool-cases s.running) [
  | inl runs ↦ rw runs (refl, (refl, refl))
  | inr rests ↦ rw rests (refl, (refl, refl))
]

step-Reasons : (w delay : ℕ) (op : Operation) (s : JobQueue) → Reasons w op s (step delay op s).1
unfolding step enqueue_job register_handler stop_queue tick retry finish_handler
step-Reasons w delay (enqueued type job_data now options waiters) s = (refl, (refl, refl))
step-Reasons w delay (registered type) s = (refl, (refl, refl))
step-Reasons w delay begun s = (refl, (refl, refl))
step-Reasons w delay ended s = (refl, (refl, refl))
step-Reasons w delay ticked s = fire-Reasons w s
step-Reasons w delay retried s = retry_first-Reasons w s s.retries
step-Reasons w delay (handler_ended failed) s =
    end_handling-Reasons w failed delay s s.handling refl

-- The times that a waiter waits at first and comes with an accepted job are those that it is
-- resolved, rejected or forgotten, and those that it still waits: one that comes once is resolved,
-- rejected or forgotten at most once, and waits until then. It is resolved exactly when the
-- handler of its job succeeds; it is rejected exactly when the handler fails and has no attempts
-- left, or a tick finds no handler for its job; and it is forgotten, never to be settled, exactly
-- when the retry of its job comes while the queue does not run.
pub run-waiting :
    (w delay : ℕ) (ops : List Operation) (s : JobQueue)
    → (waiting w (run delay ops s)
          + (counted (λ t. t.resolved) w delay ops s
              + (counted (λ t. t.rejected) w delay ops s
                  + counted (λ t. t.abandoned) w delay ops s))
        ≡ waiting w s + asked w ops)
      × ((counted (λ t. t.resolved) w delay ops s ≡ happens succeeds w delay ops s)
          × ((counted (λ t. t.rejected) w delay ops s ≡ happens fails w delay ops s)
              × (counted (λ t. t.abandoned) w delay ops s ≡ happens forgotten w delay ops s)))
run-waiting w delay [] s = (omega arith, (refl, (refl, refl)))
run-waiting w delay (op ∷ ops) s =
    let a = step-waiting w delay op s in
    let (b, (good, (bad, lost))) = run-waiting w delay ops (step delay op s).0 in
    let c = asked_first w op ops in
    let (resolves, (rejects, forgets)) = step-Reasons w delay op s in
    (omega arith, (omega arith, (omega arith, omega arith)))

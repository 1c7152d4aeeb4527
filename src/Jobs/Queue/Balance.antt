-- ===== src/Jobs/Queue/Balance.antt =====
-- Where the waiters are, and what becomes of them: nothing is lost.
use qq_bot_v.Prelude.{
  ℕ, ◌+◌, ◌≡◌, refl, Bool, true, false, not, ◌&&◌, ◌||◌, Option, none, some, List, [], ◌∷◌, ◌++◌,
  ltb, leb, ◌==◌, nat_eq, has, text_eq, Text, if◌then◌else◌, if_each, Result, ok, err, arith,
}
use qq_bot_v.Prelude.Values.{Value}
use qq_bot_v.Jobs.Queue.{
  QueuedJob, JobPriority, priority_order, MaxAttemptsError, JobQueue, SettledWaiters,
  resolve_max_attempts, resolve_priority, push_by_priority, schedule_tick, is_processing,
  schedule_when_idle, new_job, enqueue_with, enqueue_job, register_handler, start_queue, stop_queue,
  take_job, fire, tick, handled, end_handling, finish_handler, retry_first, retry, poll_interval_ms,
}
use qq_bot_v.Jobs.Queue.Runs.{
  Operation, enqueued, registered, begun, ended, ticked, retried, handler_ended, step,
}

abbrev pub times : ℕ → List ℕ → ℕ
times w [] = 0
times w (x ∷ xs) = (if x == w then 1 else 0) + times w xs

abbrev in_jobs : ℕ → List QueuedJob → ℕ
in_jobs w [] = 0
in_jobs w (job ∷ jobs) = times w job.waiters + in_jobs w jobs

abbrev in_handler : ℕ → Option QueuedJob → ℕ
in_handler w none = 0
in_handler w (some job) = times w job.waiters

-- How often the waiter waits.
abbrev pub waiting : ℕ → JobQueue → ℕ
waiting w s = in_jobs w s.queue + in_handler w s.handling + in_jobs w s.retries

abbrev released : ℕ → SettledWaiters → ℕ
released w t = times w t.resolved + times w t.rejected + times w t.abandoned

abbrev asked_with : ℕ → List ℕ → Result MaxAttemptsError ℕ → ℕ
asked_with w waiters (err e) = 0
asked_with w waiters (ok n) = times w waiters

-- How often the waiter comes with a job that is accepted.
abbrev pub asked : ℕ → List Operation → ℕ
asked w [] = 0
asked w (enqueued type job_data now options waiters ∷ ops) =
    asked_with w waiters (resolve_max_attempts options) + asked w ops
asked w (_ ∷ ops) = asked w ops

-- How often the operations resolve, reject and forget the waiter.
abbrev pub counted : (SettledWaiters → List ℕ) → ℕ → ℕ → List Operation → JobQueue → ℕ
counted of w delay [] s = 0
counted of w delay (op ∷ ops) s =
    let next = step delay op s in times w (of next.1) + counted of w delay ops next.0

abbrev pub in_first : ℕ → List QueuedJob → ℕ
in_first w [] = 0
in_first w (job ∷ jobs) = times w job.waiters

-- The waiter's share in the handler's job where the handler succeeds.
abbrev pub succeeds : ℕ → Operation → JobQueue → ℕ
succeeds w (handler_ended false) s = in_handler w s.handling
succeeds w _ s = 0

abbrev has_failed : Option QueuedJob → Bool
has_failed none = false
has_failed (some job) = leb job.max_attempts job.attempts

abbrev pub has_no_handler : List Text → List QueuedJob → Bool
has_no_handler handlers [] = false
has_no_handler handlers (job ∷ jobs) = not (has job.type handlers)

abbrev may_tick : JobQueue → Bool
may_tick s = elim s.timer [ none ↦ false | some delay ↦ s.running && not (is_processing s) ]

-- The waiter's share in the handler's job where the handler fails for the last time, and in the
-- first job of the queue where a tick finds no handler for it.
abbrev pub fails : ℕ → Operation → JobQueue → ℕ
fails w (handler_ended true) s = if has_failed s.handling then in_handler w s.handling else 0
fails w ticked s = if may_tick s && has_no_handler s.handlers s.queue then in_first w s.queue else 0
fails w _ s = 0

-- The waiter's share in a job whose retry comes when the queue does not run.
abbrev pub forgotten : ℕ → Operation → JobQueue → ℕ
forgotten w retried s = if s.running then 0 else in_first w s.retries
forgotten w _ s = 0

-- How often something happens with the waiter before an operation.
abbrev pub happens : (ℕ → Operation → JobQueue → ℕ) → ℕ → ℕ → List Operation → JobQueue → ℕ
happens f w delay [] s = 0
happens f w delay (op ∷ ops) s = f w op s + happens f w delay ops (step delay op s).0

in_jobs-push_by_priority :
    (w : ℕ) (qs : List QueuedJob) (job : QueuedJob)
    → in_jobs w (push_by_priority qs job) ≡ times w job.waiters + in_jobs w qs
in_jobs-push_by_priority w [] job = refl
in_jobs-push_by_priority w (q ∷ qs) job =
    if_each (λ t. in_jobs w t ≡ times w job.waiters + in_jobs w (q ∷ qs))
      (ltb (priority_order q.priority) (priority_order job.priority)) _ _ (λ lower. refl)
      (λ other. let rest = in_jobs-push_by_priority w qs job in omega arith)

in_jobs-append :
    (w : ℕ) (jobs : List QueuedJob) (job : QueuedJob)
    → in_jobs w (jobs ++ job ∷ []) ≡ in_jobs w jobs + times w job.waiters
in_jobs-append w [] job = omega arith
in_jobs-append w (j ∷ jobs) job = let rest = in_jobs-append w jobs job in omega arith

waiting-schedule_tick :
    (w delay : ℕ) (s : JobQueue) → waiting w (schedule_tick delay s) ≡ waiting w s
waiting-schedule_tick w delay s =
    if_each (λ t. waiting w t ≡ waiting w s) s.running _ _ (λ runs. refl) (λ rests. refl)

waiting-schedule_when_idle : (w : ℕ) (s : JobQueue) → waiting w (schedule_when_idle s) ≡ waiting w s
waiting-schedule_when_idle w s =
    if_each (λ t. waiting w t ≡ waiting w s) (s.running && not (is_processing s)) _ _
      (λ idle. waiting-schedule_tick w 0 s) (λ busy. refl)

-- What an operation settles and leaves is what waited before, and `n` that came with it.
abbrev Balanced : ℕ → ℕ → JobQueue → JobQueue × SettledWaiters → Type 0
Balanced w n s p = waiting w p.0 + released w p.1 ≡ waiting w s + n

waiting-enqueue_with :
    (w : ℕ) (s : JobQueue) (type : Text) (job_data : Value) (now : ℕ) (p : JobPriority)
    (waiters : List ℕ) (limit : Result MaxAttemptsError ℕ)
    → waiting w (enqueue_with s type job_data now p waiters limit).1
      ≡ waiting w s + asked_with w waiters limit
waiting-enqueue_with w s type job_data now p waiters (err e) = omega arith
waiting-enqueue_with w s type job_data now p waiters (ok limit) =
    let job = new_job s.next_id type job_data now p limit waiters in
    let pushed = record s { queue = push_by_priority s.queue job; next_id = s.next_id + 1 } in
    let a = waiting-schedule_when_idle w pushed in
    let b = in_jobs-push_by_priority w s.queue job in omega arith

take_job-Balanced :
    (w : ℕ) (s : JobQueue) (qs : List QueuedJob)
    → in_jobs w s.queue ≡ in_jobs w qs
    → in_handler w s.handling ≡ 0
    → Balanced w 0 s (take_job s qs)
take_job-Balanced w s [] e h = let a = waiting-schedule_tick w poll_interval_ms s in omega arith
take_job-Balanced w s (job ∷ rest) e h =
    if_each (Balanced w 0 s) (has job.type s.handlers) _ _ (λ known. omega arith)
      (λ unknown. let a = waiting-schedule_tick w 0 (record s { queue = rest }) in omega arith)

fire-Balanced : (w : ℕ) (s : JobQueue) (timer : Option ℕ) → Balanced w 0 s (fire s timer)
fire-Balanced w s none = omega arith
fire-Balanced w s (some delay) =
    if_each (Balanced w 0 s) (not s.running || is_processing s) _ _ (λ idle. omega arith)
      (λ free.
        take_job-Balanced w (record s { timer = none }) s.queue refl
          (no_handler s.running s.handling free))
  where
    no_handler :
        (runs : Bool) (o : Option QueuedJob)
        → (not runs || elim o [ none ↦ false | some job ↦ true ]) ≡ false
        → in_handler w o ≡ 0
    no_handler runs none h = refl
    no_handler true (some job) h = absurd (let bad : ⊥ = cc in bad)
    no_handler false (some job) h = absurd (let bad : ⊥ = cc in bad)

handled-Balanced :
    (w : ℕ) (failed : Bool) (job : QueuedJob) (s : JobQueue)
    → Balanced w (times w job.waiters) s (handled failed job s)
handled-Balanced w failed job s =
    if_each (Balanced w (times w job.waiters) s) (not failed) _ _ (λ good. omega arith)
      (λ bad.
        if_each (Balanced w (times w job.waiters) s) (leb job.max_attempts job.attempts) _ _
          (λ last. omega arith) (λ again. let a = in_jobs-append w s.retries job in omega arith))

end_handling-Balanced :
    (w : ℕ) (failed : Bool) (delay : ℕ) (s : JobQueue) (o : Option QueuedJob)
    → in_handler w s.handling ≡ in_handler w o
    → Balanced w 0 s (end_handling failed delay s o)
end_handling-Balanced w failed delay s none e = omega arith
end_handling-Balanced w failed delay s (some job) e =
    let freed = record s { handling = none } in
    let a = handled-Balanced w failed job freed in
    let b = waiting-schedule_tick w delay (handled failed job freed).0 in omega arith

retry_first-Balanced :
    (w : ℕ) (s : JobQueue) (rs : List QueuedJob)
    → in_jobs w s.retries ≡ in_jobs w rs
    → Balanced w 0 s (retry_first s rs)
retry_first-Balanced w s [] e = omega arith
retry_first-Balanced w s (job ∷ rest) e =
    if_each (Balanced w 0 s) s.running _ _
      (λ runs.
        let pushed = record s { queue = push_by_priority s.queue job; retries = rest } in
        let a = waiting-schedule_tick w 0 pushed in
        let b = in_jobs-push_by_priority w s.queue job in omega arith)
      (λ rests. omega arith)

waiting-start_queue : (w : ℕ) (s : JobQueue) → waiting w (start_queue s) ≡ waiting w s
unfolding start_queue
waiting-start_queue w s =
    if_each (λ t. waiting w t ≡ waiting w s) s.running _ _ (λ runs. refl)
      (λ rests. waiting-schedule_tick w 0 (record s { running = true }))

pub step-waiting :
    (w delay : ℕ) (op : Operation) (s : JobQueue)
    → Balanced w (asked w (op ∷ [])) s (step delay op s)
unfolding step enqueue_job register_handler stop_queue tick retry finish_handler
step-waiting w delay (enqueued type job_data now options waiters) s =
    let a =
      waiting-enqueue_with w s type job_data now (resolve_priority options) waiters
        (resolve_max_attempts options) in
    omega arith
step-waiting w delay (registered type) s = omega arith
step-waiting w delay begun s = let a = waiting-start_queue w s in omega arith
step-waiting w delay ended s = omega arith
step-waiting w delay ticked s = fire-Balanced w s s.timer
step-waiting w delay retried s = retry_first-Balanced w s s.retries refl
step-waiting w delay (handler_ended failed) s =
    end_handling-Balanced w failed delay s s.handling refl

pub asked_first :
    (w : ℕ) (op : Operation) (ops : List Operation)
    → asked w (op ∷ ops) ≡ asked w (op ∷ []) + asked w ops
asked_first w (enqueued type job_data now options waiters) ops = omega arith
asked_first w (registered type) ops = omega arith
asked_first w begun ops = omega arith
asked_first w ended ops = omega arith
asked_first w ticked ops = omega arith
asked_first w retried ops = omega arith
asked_first w (handler_ended failed) ops = omega arith

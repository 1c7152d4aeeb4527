-- ===== src/Jobs/Queue/Awake.antt =====
-- What scheduled ticks and new jobs keep.
use qq_bot_v.Prelude.{
  ℕ, zero, suc, ◌+◌, ◌≤◌, ◌<◌, ◌≡◌, refl, ◌⊎◌, inl, inr, Bool, true, false, not, ◌&&◌, Option, none,
  some, List, [], ◌∷◌, ltb, text_eq, Text, All, Bool-cases, if_each, Result, ok, err, arith,
}
use mathlib.Core.Path.{subst}
use qq_bot_v.Prelude.Values.{Value, Number, number, positive_safe, non_negative_safe}
use qq_bot_v.Jobs.Queue.{
  QueuedJob, JobPriority, priority_order, JobEnqueueOptions, MaxAttemptsError, JobQueue,
  max_attempts_default, positive_or_error, resolve_max_attempts, push_by_priority, schedule_tick,
  is_processing, schedule_when_idle, new_job, enqueue_with, start_queue,
}
use qq_bot_v.Jobs.Queue.Order.{Ordered, push_by_priority-Ordered}

-- The job may be tried again.
abbrev pub MayTry : QueuedJob → Type 0
MayTry job = job.attempts < job.max_attempts

-- A job in a handler is in one of the attempts that it may have.
abbrev pub IsTried : Option QueuedJob → Type 0
IsTried none = Unit
IsTried (some job) = (1 ≤ job.attempts) × (job.attempts ≤ job.max_attempts)

-- The queue does not run, or a handler is at work, or a tick is set.
abbrev pub IsAwake : JobQueue → Type 0
IsAwake s =
    (s.running ≡ false) ⊎ ((is_processing s ≡ true) ⊎ ((delay : ℕ) × (s.timer ≡ some delay)))

pub record Sound (s : JobQueue) : Type 0 where
  pub ordered : Ordered s.queue
  pub queued : All MayTry s.queue
  pub tried : IsTried s.handling
  pub retrying : All MayTry s.retries
  pub awake : IsAwake s

pub push_by_priority-MayTry :
    (qs : List QueuedJob) (job : QueuedJob)
    → MayTry job
    → All MayTry qs
    → All MayTry (push_by_priority qs job)
push_by_priority-MayTry [] job may h = (may, tt)
push_by_priority-MayTry (q ∷ qs) job may h =
    elim (Bool-cases (ltb (priority_order q.priority) (priority_order job.priority))) [
      | inl lower ↦ rw lower (may, h)
      | inr other ↦ rw other (h.0, push_by_priority-MayTry qs job may h.1)
    ]

-- What a scheduled tick leaves: everything but the timer, and the queue awake.
pub schedule_tick-Sound :
    (delay : ℕ) (s : JobQueue)
    → Ordered s.queue
    → All MayTry s.queue
    → IsTried s.handling
    → All MayTry s.retries
    → Sound (schedule_tick delay s)
schedule_tick-Sound delay s o q t r =
    if_each Sound s.running (record s { timer = some delay }) s
      (λ runs. record {
        ordered = o;
        queued = q;
        tried = t;
        retrying = r;
        awake = inr (inr (delay, refl));
      })
      (λ rests. record { ordered = o; queued = q; tried = t; retrying = r; awake = inl rests })

schedule_when_idle-Sound :
    (s : JobQueue)
    → Ordered s.queue
    → All MayTry s.queue
    → IsTried s.handling
    → All MayTry s.retries
    → Sound (schedule_when_idle s)
schedule_when_idle-Sound s o q t r =
    if_each Sound (s.running && not (is_processing s)) (schedule_tick 0 s) s
      (λ idle. schedule_tick-Sound 0 s o q t r)
      (λ busy. record {
        ordered = o;
        queued = q;
        tried = t;
        retrying = r;
        awake = still s.running (is_processing s) busy;
      })
  where
    still :
        (a b : Bool)
        → (a && not b) ≡ false
        → (a ≡ false) ⊎ ((b ≡ true) ⊎ ((delay : ℕ) × (s.timer ≡ some delay)))
    still false b h = inl refl
    still true true h = inr (inl refl)
    still true false h = absurd (let bad : ⊥ = cc in bad)

positive_or_error-positive :
    (v : Value) (n : ℕ) → positive_or_error (positive_safe v) ≡ ok n → 0 < n
unfolding positive_safe
positive_or_error-positive v n h = by_option (non_negative_safe v) h
  where
    by_option :
        (o : Option ℕ)
        → positive_or_error (elim o [ some (suc n) ↦ some (suc n) | _ ↦ none ]) ≡ ok n
        → 0 < n
    by_option none h = absurd (let bad : ⊥ = cc in bad)
    by_option (some zero) h = absurd (let bad : ⊥ = cc in bad)
    by_option (some (suc m)) h = subst (λ k. 0 < k) (ok_ok h) (omega arith)
      where
        ok_ok : {a b : ℕ} → ◌≡◌ {A = Result MaxAttemptsError ℕ} (ok a) (ok b) → a ≡ b
        ok_ok h = cc

pub resolve_max_attempts-positive :
    (options : JobEnqueueOptions) (n : ℕ) → resolve_max_attempts options ≡ ok n → 0 < n
unfolding resolve_max_attempts
resolve_max_attempts-positive options n h = by_limit options.max_attempts h
  where
    by_limit :
        (o : Option Number)
        → elim o [
          | none ↦ ok max_attempts_default
          | some n ↦ positive_or_error (positive_safe (number n))
        ]
          ≡ ok n
        → 0 < n
    by_limit none h = subst (λ k. 0 < k) (ok_ok h) (omega arith)
      where
        ok_ok : {a b : ℕ} → ◌≡◌ {A = Result MaxAttemptsError ℕ} (ok a) (ok b) → a ≡ b
        ok_ok h = cc
    by_limit (some m) h = positive_or_error-positive (number m) n h

pub enqueue_with-Sound :
    (s : JobQueue) (type : Text) (job_data : Value) (now : ℕ) (p : JobPriority) (waiters : List ℕ)
    (limit : Result MaxAttemptsError ℕ)
    → ((n : ℕ) → limit ≡ ok n → 0 < n)
    → Sound s
    → Sound (enqueue_with s type job_data now p waiters limit).1
enqueue_with-Sound s type job_data now p waiters (err e) pos h = record {
  ordered = h.ordered;
  queued = h.queued;
  tried = h.tried;
  retrying = h.retrying;
  awake = h.awake;
}
enqueue_with-Sound s type job_data now p waiters (ok limit) pos h =
    let job = new_job s.next_id type job_data now p limit waiters in
    schedule_when_idle-Sound
      (record s { queue = push_by_priority s.queue job; next_id = s.next_id + 1 })
      (push_by_priority-Ordered s.queue job h.ordered)
      (push_by_priority-MayTry s.queue job (pos limit refl) h.queued) h.tried h.retrying

pub start_queue-Sound : (s : JobQueue) → Sound s → Sound (start_queue s)
unfolding start_queue
start_queue-Sound s h =
    if_each Sound s.running s (schedule_tick 0 (record s { running = true })) (λ runs. h)
      (λ rests.
        schedule_tick-Sound 0 (record s { running = true }) h.ordered h.queued h.tried h.retrying)

-- ===== src/Jobs/Queue.antt =====
-- The job queue (src/queue/memory-queue.ts: createMemoryQueue). A handler runs outside: the queue
-- knows the types that have one, and a handler's end is an operation of its own. A waiter of
-- `enqueueAndWait` is a number. The state holds, beside the variables of the source, what their
-- closures hold: the job that a handler works on and the jobs that wait for their retry timer.
pub mod Order
pub mod Runs
pub mod Awake
pub mod Laws
pub mod Balance
pub mod Waiters
use qq_bot_v.Prelude.{
  ℕ, suc, ◌+◌, Bool, true, false, not, ◌&&◌, ◌||◌, Option, none, some, List, [], ◌∷◌, ◌++◌, ltb,
  leb, ◌==◌, nat_eq, text_eq, Text, has, if◌then◌else◌, Result, ok, err,
}
use qq_bot_v.Prelude.Values.{Value, Number, number, positive_safe}

pub data JobPriority : Type 0 where
  high normal low : JobPriority

abbrev pub priority_order : JobPriority → ℕ
priority_order high = 2
priority_order normal = 1
priority_order low = 0

pub record QueuedJob : Type 0 where
  pub id : ℕ
  pub type : Text
  pub job_data : Value
  pub created_at : ℕ
  pub attempts : ℕ
  pub priority : JobPriority
  pub waiters : List ℕ
  pub max_attempts : ℕ

pub record JobEnqueueOptions : Type 0 where
  pub priority : Option JobPriority
  pub max_attempts : Option Number

-- `timer` is the delay of the tick that is set; `handling` is there while `processing` is true.
pub record JobQueue : Type 0 where
  pub queue : List QueuedJob
  pub handlers : List Text
  pub timer : Option ℕ
  pub running : Bool
  pub handling : Option QueuedJob
  pub retries : List QueuedJob
  pub next_id : ℕ

-- The waiters that an operation lets go. A retry that comes after `stop` drops its job: the
-- waiters of it are abandoned, and their promises are never settled.
pub record SettledWaiters : Type 0 where
  pub resolved : List ℕ
  pub rejected : List ℕ
  pub abandoned : List ℕ

abbrev pub nothing : SettledWaiters
nothing = record { resolved = []; rejected = []; abandoned = [] }

abbrev pub max_attempts_default : ℕ
max_attempts_default = 3

abbrev pub retry_delay_ms : ℕ
retry_delay_ms = 5000

abbrev pub poll_interval_ms : ℕ
poll_interval_ms = 1000

pub data MaxAttemptsError : Type 0 where
  max_attempts_error : MaxAttemptsError

abbrev pub resolve_priority : JobEnqueueOptions → JobPriority
resolve_priority options = elim options.priority [ none ↦ normal | some p ↦ p ]

abbrev pub positive_or_error : Option ℕ → Result MaxAttemptsError ℕ
positive_or_error none = err max_attempts_error
positive_or_error (some n) = ok n

unfoldable pub resolve_max_attempts : JobEnqueueOptions → Result MaxAttemptsError ℕ
resolve_max_attempts options = elim options.max_attempts [
  | none ↦ ok max_attempts_default
  | some n ↦ positive_or_error (positive_safe (number n))
]

-- Before the first job of a lower priority, or at the end.
abbrev pub push_by_priority : List QueuedJob → QueuedJob → List QueuedJob
push_by_priority [] job = job ∷ []
push_by_priority (q ∷ qs) job =
    if ltb (priority_order q.priority) (priority_order job.priority)
    then job ∷ q ∷ qs
    else q ∷ push_by_priority qs job

abbrev pub create_memory_queue : JobQueue
create_memory_queue = record {
  queue = [];
  handlers = [];
  timer = none;
  running = false;
  handling = none;
  retries = [];
  next_id = 1;
}

-- `schedule`: the timer that is set is cleared, and a new one set.
abbrev pub schedule_tick : ℕ → JobQueue → JobQueue
schedule_tick delay s = if s.running then record s { timer = some delay } else s

abbrev pub is_processing : JobQueue → Bool
is_processing s = elim s.handling [ none ↦ false | some job ↦ true ]

abbrev pub schedule_when_idle : JobQueue → JobQueue
schedule_when_idle s = if s.running && not (is_processing s) then schedule_tick 0 s else s

abbrev new_job : ℕ → Text → Value → ℕ → JobPriority → ℕ → List ℕ → QueuedJob
new_job id type job_data now priority max_attempts waiters = record {
  id = id;
  type = type;
  job_data = job_data;
  created_at = now;
  attempts = 0;
  priority = priority;
  waiters = waiters;
  max_attempts = max_attempts;
}

abbrev enqueue_with :
    JobQueue
    → Text
    → Value
    → ℕ
    → JobPriority
    → List ℕ
    → Result MaxAttemptsError ℕ
    → Result MaxAttemptsError (Unit {0}) × JobQueue
enqueue_with s type job_data now priority waiters (err e) =
    (err e, record s { next_id = s.next_id + 1 })
enqueue_with s type job_data now priority waiters (ok limit) = (
  ok tt,
  schedule_when_idle (record s {
    queue = push_by_priority s.queue (new_job s.next_id type job_data now priority limit waiters);
    next_id = s.next_id + 1;
  }),
)

-- The id is taken before the options are checked. The waiters are those of the promise: none for
-- `enqueue`, one for `enqueueAndWait`, whose promise is rejected with the error.
unfoldable pub enqueue_job :
    JobQueue
    → Text
    → Value
    → ℕ
    → JobEnqueueOptions
    → List ℕ
    → Result MaxAttemptsError (Unit {0}) × JobQueue
unfolding resolve_max_attempts
enqueue_job s type job_data now options waiters =
    enqueue_with s type job_data now (resolve_priority options) waiters
      (resolve_max_attempts options)

unfoldable pub register_handler : JobQueue → Text → JobQueue
register_handler s type = record s {
  handlers = if has type s.handlers then s.handlers else type ∷ s.handlers;
}

unfoldable pub start_queue : JobQueue → JobQueue
start_queue s = if s.running then s else schedule_tick 0 (record s { running = true })

unfoldable pub stop_queue : JobQueue → JobQueue
stop_queue s = record s { running = false; timer = none }

abbrev take_job : JobQueue → List QueuedJob → JobQueue × SettledWaiters
take_job s [] = (schedule_tick poll_interval_ms s, nothing)
take_job s (job ∷ rest) =
    if has job.type s.handlers
    then (
      record s { queue = rest; handling = some (record job { attempts = job.attempts + 1 }) },
      nothing,
    )
    else (schedule_tick 0 (record s { queue = rest }), record nothing { rejected = job.waiters })

abbrev fire : JobQueue → Option ℕ → JobQueue × SettledWaiters
fire s none = (s, nothing)
fire s (some delay) =
    if not s.running || is_processing s
    then (record s { timer = none }, nothing)
    else take_job (record s { timer = none }) s.queue

-- The tick whose timer is set: it works on the first job.
unfoldable pub tick : JobQueue → JobQueue × SettledWaiters
tick s = fire s s.timer

-- The part of `tick` after the handler of the job, with `failed` where it threw.
abbrev handled : Bool → QueuedJob → JobQueue → JobQueue × SettledWaiters
handled failed job s =
    if not failed
    then (s, record nothing { resolved = job.waiters })
    else if leb job.max_attempts job.attempts
    then (s, record nothing { rejected = job.waiters })
    else (record s { retries = s.retries ++ job ∷ [] }, nothing)

abbrev end_handling : Bool → ℕ → JobQueue → Option QueuedJob → JobQueue × SettledWaiters
end_handling failed delay s none = (s, nothing)
end_handling failed delay s (some job) =
    let ended = handled failed job (record s { handling = none }) in
    (schedule_tick delay ended.0, ended.1)

unfoldable pub finish_handler : Bool → ℕ → JobQueue → JobQueue × SettledWaiters
finish_handler failed inter_job_delay_ms s = end_handling failed inter_job_delay_ms s s.handling

abbrev retry_first : JobQueue → List QueuedJob → JobQueue × SettledWaiters
retry_first s [] = (s, nothing)
retry_first s (job ∷ rest) =
    if s.running
    then (
      schedule_tick 0 (record s { queue = push_by_priority s.queue job; retries = rest }),
      nothing,
    )
    else (record s { retries = rest }, record nothing { abandoned = job.waiters })

-- The retry timer of the job that waits longest: the delay is the same for all.
unfoldable pub retry : JobQueue → JobQueue × SettledWaiters
retry s = retry_first s s.retries

-- ===== src/Schedules/Runtime.antt =====
-- The runtime of schedules (src/agent/schedule-runtime.ts: createScheduleRuntime). Its mutations
-- run one after the other, so each is one operation here; a `stop` may come while one waits for
-- the store, which `Faults` says, as it says which calls of the stores, the timers and the event
-- queue throw. `start` is two operations, before and after the store is loaded, and so is
-- `stop`, before and after it has waited for the mutations. A timer is its delay; its callback comes as the operation `timer_fired`, at any time and also when stale.
pub mod Timers
pub mod Laws
pub mod Requests
pub mod Mutations
pub mod Starts
pub mod Runs
pub mod Recorded
pub mod Firing
pub mod Create
pub mod Fire
pub mod Lifecycle
use qq_bot_v.Prelude.{
  ℕ, ◌-◌, min, Bool, true, false, not, ◌&&◌, ◌||◌, Option, none, some, List, [], ◌∷◌, ◌++◌, ltb,
  leb, ◌==◌, nat_eq, text_eq, Text, trim, is_empty, is_blank, length, find, keep, insert, delete,
  if◌then◌else◌, Result, ok, err, ◌>>=◌, ◌>>◌, guard,
}
use qq_bot_v.Schedules.Model.{
  ScheduleJob, ScheduleAtInput, ScheduleModelError, invalid_schedule, outside_schedule_window,
  normalize_schedule_at, validate_schedule_jobs, max_active_schedules, max_id_length,
  max_name_length, max_intention_length,
}
use qq_bot_v.Schedules.Occurrences.{ScheduleOccurrence, record_occurrence, find_occurrence}

pub data Phase : Type 0 where
  new starting started stopped : Phase

pub record ArmedTimer : Type 0 where
  pub delay : ℕ
  pub expected_at : ℕ

-- The event `scheduled_wake`.
pub record Wake : Type 0 where
  pub schedule_id : Text
  pub name : Text
  pub scheduled_for : ℕ

-- `loading` says that a `start` waits for the store, and `deliveries` is missing where the runtime has no delivery store.
pub record ScheduleRuntime : Type 0 where
  pub phase : Phase
  pub loading : Bool
  pub jobs : List ScheduleJob
  pub timers : List (Text × ArmedTimer)
  pub stored : List ScheduleJob
  pub occurrences : List ScheduleOccurrence
  pub deliveries : Option (List ScheduleOccurrence)
  pub events : List Wake

pub record Faults : Type 0 where
  pub store_fails : Bool
  pub occurrence_fails : Bool
  pub delivery_fails : Bool
  pub timer_fails : Bool
  pub enqueue_fails : Bool
  pub stops_meanwhile : Bool

pub data ScheduleError : Type 0 where
  not_started already_started is_stopped invalid_input : ScheduleError
  model_error : ScheduleModelError → ScheduleError
  name_conflict : Text → ScheduleError
  active_limit_reached validation_failed persistence_failed timer_failed : ScheduleError

pub record CreateInput : Type 0 where
  pub name : Text
  pub intention : Text
  pub at : ScheduleAtInput

pub data CreateResult : Type 0 where
  created existing : ScheduleJob → CreateResult

pub data CancelResult : Type 0 where
  cancelled already_absent : CancelResult

abbrev pub max_timer_delay_ms : ℕ
max_timer_delay_ms = 2147483647

abbrev pub find_job : Text → List ScheduleJob → Option ScheduleJob
find_job id js = find (λ j. j.id == id) js

abbrev pub without : Text → List ScheduleJob → List ScheduleJob
without id js = keep (λ j. not (j.id == id)) js

-- `jobs.set`.
abbrev pub put_job : ScheduleJob → List ScheduleJob → List ScheduleJob
put_job j [] = j ∷ []
put_job j (k ∷ ks) = if k.id == j.id then j ∷ ks else k ∷ put_job j ks

-- `replace` of a store: it validates, and keeps what it had when it throws.
abbrev pub replaced : Bool → List ScheduleJob → Option (List ScheduleJob)
replaced fails js = if fails then none else validate_schedule_jobs js

abbrev pub clear_job_timer : Text → ScheduleRuntime → ScheduleRuntime
clear_job_timer id s = record s { timers = delete id s.timers }

abbrev pub set_timer : Text → ℕ → ℕ → ScheduleRuntime → ScheduleRuntime
set_timer id delay expected_at s = record s {
  timers = insert id (record { delay = delay; expected_at = expected_at }) s.timers;
}

abbrev pub is_started : Phase → Bool
is_started started = true
is_started _ = false

-- What `stop` does at once: the mutation that is under way goes on, and the jobs stay till its end.
abbrev pub stopped_now : ScheduleRuntime → ScheduleRuntime
stopped_now s = record s { phase = stopped; timers = [] }

abbrev pub settle : Bool → ScheduleRuntime → ScheduleRuntime
settle stops s = if stops then stopped_now s else s

-- With whether `setTimer` threw.
abbrev pub arm_job : Bool → ℕ → ScheduleJob → ScheduleRuntime → Bool × ScheduleRuntime
arm_job fails now j s =
    let cleared = clear_job_timer j.id s in
    if not (is_started s.phase)
    then (false, cleared)
    else if fails
    then (true, cleared)
    else (false, set_timer j.id (min (j.at - now) max_timer_delay_ms) j.at cleared)

abbrev pub assert_started : Phase → Result ScheduleError (Unit {0})
assert_started new = err not_started
assert_started starting = err already_started
assert_started stopped = err is_stopped
assert_started started = ok tt

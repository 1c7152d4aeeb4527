-- ===== src/Schedules/Runtime/Lifecycle.antt =====
-- The operations `start`, `stop`, `cancel`, `list` and `getOccurrence` of the runtime.
use qq_bot_v.Prelude.{
  ℕ, Bool, true, false, ◌||◌, Option, none, some, List, [], ◌∷◌, ltb, leb, nat_eq, text_eq, Text,
  is_blank, length, if◌then◌else◌, Result, ok, err,
}
use qq_bot_v.Schedules.Model.{ScheduleJob, max_id_length}
use qq_bot_v.Schedules.Occurrences.{ScheduleOccurrence, find_occurrence}
use qq_bot_v.Schedules.Runtime.{
  Phase, new, starting, started, stopped, ScheduleRuntime, Faults, ScheduleError, already_started,
  is_stopped, persistence_failed, timer_failed, CancelResult, cancelled, already_absent, find_job,
  without, replaced, clear_job_timer, stopped_now, settle, arm_job, assert_started,
}

abbrev pub cancel_stored :
    Text
    → ScheduleRuntime
    → Option (List ScheduleJob)
    → Result ScheduleError CancelResult × ScheduleRuntime
cancel_stored id s none = (err persistence_failed, s)
cancel_stored id s (some saved) =
    (ok cancelled, clear_job_timer id (record s { stored = saved; jobs = without id s.jobs }))

abbrev pub cancel_job :
    Faults
    → Text
    → ScheduleRuntime
    → Option ScheduleJob
    → Result ScheduleError CancelResult × ScheduleRuntime
cancel_job f id s none = (ok already_absent, s)
cancel_job f id s (some j) = cancel_stored id s (replaced f.store_fails (without id s.jobs))

abbrev pub cancel_started :
    Faults
    → Text
    → ScheduleRuntime
    → Result ScheduleError (Unit {0})
    → Result ScheduleError CancelResult × ScheduleRuntime
cancel_started f id s (err e) = (err e, s)
cancel_started f id s (ok u) =
    let done = cancel_job f id s (find_job id s.jobs) in (done.0, settle f.stops_meanwhile done.1)

unfoldable pub cancel_schedule :
    Faults → Text → ScheduleRuntime → Result ScheduleError CancelResult × ScheduleRuntime
cancel_schedule f id s = cancel_started f id s (assert_started s.phase)

abbrev pub is_over : Phase → Bool
is_over stopped = true
is_over _ = false

unfoldable pub stop_runtime : ScheduleRuntime → ScheduleRuntime
stop_runtime s = if is_over s.phase then s else stopped_now s

-- The rest of `stop`, when the mutations have ended.
unfoldable pub finish_stop : ScheduleRuntime → ScheduleRuntime
finish_stop s = record s { jobs = [] }

abbrev pub may_start : Phase → Result ScheduleError (Unit {0})
may_start new = ok tt
may_start stopped = err is_stopped
may_start _ = err already_started

abbrev pub begun_start :
    ScheduleRuntime
    → Result ScheduleError (Unit {0})
    → Result ScheduleError (Unit {0}) × ScheduleRuntime
begun_start s (err e) = (err e, s)
begun_start s (ok u) = (ok tt, record s { phase = starting; loading = true })

unfoldable pub begin_start : ScheduleRuntime → Result ScheduleError (Unit {0}) × ScheduleRuntime
begin_start s = begun_start s (may_start s.phase)

-- The loop over the jobs, until a timer throws.
abbrev pub arm_all : Bool → ℕ → List ScheduleJob → ScheduleRuntime → Bool × ScheduleRuntime
arm_all fails now [] s = (false, s)
arm_all fails now (j ∷ js) s =
    let armed = arm_job fails now j s in
    let rest = arm_all fails now js armed.1 in if armed.0 then (true, armed.1) else rest

abbrev pub armed_start : Bool × ScheduleRuntime → Result ScheduleError (Unit {0}) × ScheduleRuntime
armed_start (false, s) = (ok tt, s)
armed_start (true, s) = (err timer_failed, record s { phase = stopped; timers = [] })

abbrev pub start_loaded :
    Faults
    → ℕ
    → ScheduleRuntime
    → Option (List ScheduleJob)
    → Result ScheduleError (Unit {0}) × ScheduleRuntime
start_loaded f now s none = (err persistence_failed, record s { phase = new })
start_loaded f now s (some loaded) =
    armed_start (arm_all f.timer_fails now loaded (record s { jobs = loaded; phase = started }))

-- The rest of `start`, when the store has answered: a `stop` that came meanwhile is overridden.
unfoldable pub finish_start :
    Faults → ℕ → ScheduleRuntime → Result ScheduleError (Unit {0}) × ScheduleRuntime
finish_start f now s =
    if s.loading
    then start_loaded f now (record s { loading = false }) (replaced f.store_fails s.stored)
    else (ok tt, s)

abbrev insert_by_at : ScheduleJob → List ScheduleJob → List ScheduleJob
insert_by_at j [] = j ∷ []
insert_by_at j (k ∷ ks) = if leb j.at k.at then j ∷ k ∷ ks else k ∷ insert_by_at j ks

abbrev sort_by_at : List ScheduleJob → List ScheduleJob
sort_by_at [] = []
sort_by_at (j ∷ js) = insert_by_at j (sort_by_at js)

abbrev sorted_when :
    List ScheduleJob → Result ScheduleError (Unit {0}) → Result ScheduleError (List ScheduleJob)
sorted_when js (err e) = err e
sorted_when js (ok u) = ok (sort_by_at js)

unfoldable pub list_jobs : ScheduleRuntime → Result ScheduleError (List ScheduleJob)
list_jobs s = sorted_when s.jobs (assert_started s.phase)

abbrev occurrence_when :
    Text
    → ScheduleRuntime
    → Result ScheduleError (Unit {0})
    → Result ScheduleError (Option ScheduleOccurrence)
occurrence_when id s (err e) = err e
occurrence_when id s (ok u) = ok (
    if is_blank id || ltb max_id_length (length id) then none else find_occurrence id s.occurrences)

unfoldable pub get_occurrence :
    Text → ScheduleRuntime → Result ScheduleError (Option ScheduleOccurrence)
get_occurrence id s = occurrence_when id s (assert_started s.phase)

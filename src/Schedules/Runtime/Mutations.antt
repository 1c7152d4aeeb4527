-- ===== src/Schedules/Runtime/Mutations.antt =====
-- The mutations of the runtime keep it sound: `create`, a timer that fires, and `cancel`.
use qq_bot_v.Prelude.{
  ℕ, ◌≡◌, refl, Bool, true, false, ◌&&◌, Option, none, some, List, ◌==◌, nat_eq, text_eq, Text,
  if_each, Result, ok, err, arith,
}
use mathlib.Core.Path.{subst}
use qq_bot_v.Schedules.Model.{ScheduleJob}
use qq_bot_v.Schedules.Runtime.{
  started, ScheduleRuntime, Faults, ScheduleError, CreateInput, find_job, without, replaced,
  is_started, assert_started,
}
use qq_bot_v.Schedules.Runtime.Timers.{is_started-started, has_job, find_job-has_job}
use qq_bot_v.Schedules.Runtime.Create.{request, create}
use qq_bot_v.Schedules.Runtime.Fire.{process_timer, retry_job, after_processing, timer_fired}
use qq_bot_v.Schedules.Runtime.Lifecycle.{
  cancel_stored, cancel_job, cancel_started, cancel_schedule,
}
use qq_bot_v.Schedules.Runtime.Laws.{
  InStep, settle-InStep, cleared-InStep, set_timer-InStep, InStep-Started, without-Started,
}
use qq_bot_v.Schedules.Runtime.Requests.{
  assert_started-started, request-started, create_requested-InStep, Leaves, process_timer-InStep,
}

retry_job-InStep :
    (delay : ℕ) (fails : Bool) (id : Text) (expected_at : ℕ) (s : ScheduleRuntime)
    (o : Option ScheduleJob)
    → find_job id s.jobs ≡ o
    → InStep s
    → InStep (retry_job delay fails id expected_at s o)
retry_job-InStep delay fails id expected_at s none e h = h
retry_job-InStep delay fails id expected_at s (some j) e h =
    if_each InStep (is_started s.phase && j.at == expected_at) _ _
      (λ current.
        let on : is_started s.phase ≡ true = ground (arith, current) in
        let at : j.at ≡ expected_at = ground (arith, current) in
        let begun = InStep-Started id s (is_started-started s.phase on) h in
        if_each InStep fails _ _ (λ failed. cleared-InStep id s begun)
          (λ works.
            set_timer-InStep id delay expected_at s begun
              (subst (λ t. has_job s.jobs id t ≡ true) at (find_job-has_job id s.jobs j e).1)))
      (λ stale. h)

after_processing-InStep :
    (delay : ℕ) (fails : Bool) (id : Text) (expected_at : ℕ) (p : Bool × ScheduleRuntime)
    → Leaves p
    → InStep (after_processing delay fails id expected_at p)
after_processing-InStep delay fails id expected_at (false, s) h = h
after_processing-InStep delay fails id expected_at (true, s) h =
    retry_job-InStep delay fails id expected_at s (find_job id s.jobs) refl h

cancel_job-InStep :
    (f : Faults) (id : Text) (s : ScheduleRuntime) (o : Option ScheduleJob)
    → s.phase ≡ started
    → InStep s
    → InStep (cancel_job f id s o).1
cancel_job-InStep f id s none b h = h
cancel_job-InStep f id s (some j) b h = by_store (replaced f.store_fails (without id s.jobs)) refl
  where
    by_store :
        (o : Option (List ScheduleJob))
        → replaced f.store_fails (without id s.jobs) ≡ o
        → InStep (cancel_stored id s o).1
    by_store none e = h
    by_store (some saved) e =
        cleared-InStep id (record s { stored = saved; jobs = without id s.jobs })
          (without-Started f.store_fails id s saved b h e)

cancel_started-InStep :
    (f : Faults) (id : Text) (s : ScheduleRuntime) (r : Result ScheduleError (Unit {0}))
    → assert_started s.phase ≡ r
    → InStep s
    → InStep (cancel_started f id s r).1
cancel_started-InStep f id s (err e) p h = h
cancel_started-InStep f id s (ok u) p h =
    settle-InStep f.stops_meanwhile (cancel_job f id s (find_job id s.jobs)).1 (λ goes_on.
      cancel_job-InStep f id s (find_job id s.jobs) (assert_started-started s.phase p) h)

pub create-InStep :
    (parse_date : Text → Option ℕ) (f : Faults) (s : ScheduleRuntime) (input : CreateInput)
    (now : ℕ) (id : Text)
    → InStep s
    → InStep (create parse_date f s input now id).1
unfolding create
create-InStep parse_date f s input now id h =
    create_requested-InStep f now s (request parse_date s input now id)
      (λ q e. request-started parse_date s input now id q e) h

pub timer_fired-InStep :
    (f : Faults) (fails : Bool) (delay : ℕ) (id : Text) (expected_at now : ℕ) (s : ScheduleRuntime)
    → InStep s
    → InStep (timer_fired f fails delay id expected_at now s)
unfolding timer_fired
timer_fired-InStep f fails delay id expected_at now s h =
    let processed = process_timer f id expected_at now s in
    settle-InStep f.stops_meanwhile (after_processing delay fails id expected_at processed)
      (λ goes_on.
        after_processing-InStep delay fails id expected_at processed
          (process_timer-InStep f id expected_at now s h))

pub cancel_schedule-InStep :
    (f : Faults) (id : Text) (s : ScheduleRuntime) → InStep s → InStep (cancel_schedule f id s).1
unfolding cancel_schedule
cancel_schedule-InStep f id s h = cancel_started-InStep f id s (assert_started s.phase) refl h

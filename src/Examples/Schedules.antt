-- ===== src/Examples/Schedules.antt =====
-- The theorems on the runtime of schedules, with a schedule that is created and fires.
use qq_bot_v.Prelude.{
  ℕ, ◌≡◌, ◌⊎◌, refl, Bool, true, false, Option, none, some, List, [], ◌∷◌, ◌++◌, Text, text, length,
}
use qq_bot_v.Schedules.Model.{ScheduleJob, after_seconds}
use qq_bot_v.Schedules.Runtime.{Phase, started, ScheduleRuntime, Faults, CreateInput}
use qq_bot_v.Schedules.Runtime.Fire.{process_timer}
use qq_bot_v.Schedules.Runtime.Firing.{Fires, process_timer-Fires}
use qq_bot_v.Schedules.Runtime.Laws.{InStep}
use qq_bot_v.Schedules.Runtime.Runs.{
  Operation, created_with, fired, cancelled_with, start_begun, stopped_once, stop_finished,
  start_finished, run, created_runtime, run-InStep,
}

abbrev no_faults : Faults
no_faults = record {
  store_fails = false;
  occurrence_fails = false;
  delivery_fails = false;
  timer_fails = false;
  enqueue_fails = false;
  stops_meanwhile = false;
}

abbrev no_dates : Text → Option ℕ
no_dates s = none

abbrev reminder : CreateInput
reminder = record { name = text "tea"; intention = text "drink"; at = after_seconds 60 }

abbrev some_operations : List Operation
some_operations =
    start_begun
    ∷ start_finished no_faults 500
    ∷ created_with no_faults reminder 1000 (text "s1")
    ∷ fired no_faults false 5000 (text "s1") 61000 60999
    ∷ fired no_faults false 5000 (text "s1") 61000 61000
    ∷ stopped_once
    ∷ stop_finished
    ∷ []

run-InStep_example : InStep (run no_dates some_operations (created_runtime [] [] none))
unfolding qq_bot_v.Schedules.Runtime.Runs.step qq_bot_v.Schedules.Runtime.Lifecycle.stop_runtime
    qq_bot_v.Schedules.Runtime.Fire.timer_fired qq_bot_v.Schedules.Runtime.Create.create
    qq_bot_v.Schedules.Runtime.Lifecycle.finish_start
    qq_bot_v.Schedules.Runtime.Lifecycle.begin_start qq_bot_v.Schedules.Model.validate_schedule_jobs
    qq_bot_v.Schedules.Model.are_valid qq_bot_v.Prelude.trim
    qq_bot_v.Schedules.Model.normalize_schedule_at qq_bot_v.Schedules.Model.is_valid_job
    qq_bot_v.Prelude.text_beq qq_bot_v.Schedules.Occurrences.record_occurrence
    qq_bot_v.Schedules.Occurrences.parse_occurrence
run-InStep_example = run-InStep no_dates [] [] none some_operations refl

-- The event is sent once, at its time and not before.
events_sent : length (run no_dates some_operations (created_runtime [] [] none)).events ≡ 1
unfolding qq_bot_v.Schedules.Runtime.Runs.step qq_bot_v.Schedules.Runtime.Fire.timer_fired
    qq_bot_v.Schedules.Runtime.Create.create qq_bot_v.Schedules.Runtime.Lifecycle.finish_start
    qq_bot_v.Schedules.Runtime.Lifecycle.begin_start qq_bot_v.Schedules.Model.validate_schedule_jobs
    qq_bot_v.Schedules.Model.are_valid qq_bot_v.Prelude.trim
    qq_bot_v.Schedules.Model.normalize_schedule_at qq_bot_v.Schedules.Model.is_valid_job
    qq_bot_v.Prelude.text_beq qq_bot_v.Schedules.Occurrences.record_occurrence
    qq_bot_v.Schedules.Runtime.Lifecycle.finish_stop
    qq_bot_v.Schedules.Runtime.Lifecycle.stop_runtime
    qq_bot_v.Schedules.Occurrences.parse_occurrence
events_sent = refl

abbrev tea : ScheduleJob
tea = record {
  id = text "s1";
  name = text "tea";
  intention = text "drink";
  at = 61000;
  created_at = 1000;
}

abbrev waiting_runtime : ScheduleRuntime
waiting_runtime = record {
  phase = started;
  loading = false;
  jobs = tea ∷ [];
  timers = [];
  stored = tea ∷ [];
  occurrences = [];
  deliveries = some [];
  events = [];
}

process_timer-Fires_example :
    ((process_timer no_faults (text "s1") 61000 61000 waiting_runtime).1.events ≡ [])
    ⊎ Fires
        (text "s1")
        61000
        61000
        waiting_runtime
        (process_timer no_faults (text "s1") 61000 61000 waiting_runtime).1
process_timer-Fires_example = process_timer-Fires no_faults (text "s1") 61000 61000 waiting_runtime

-- A stop that comes while the store is loaded is overridden: the runtime is started behind it.
stop_overridden :
    (run no_dates
      (start_begun ∷ stopped_once ∷ start_finished no_faults 500 ∷ [])
      (created_runtime [] [] none)).phase
    ≡ started
unfolding qq_bot_v.Schedules.Runtime.Runs.step qq_bot_v.Schedules.Runtime.Lifecycle.finish_start
    qq_bot_v.Schedules.Runtime.Lifecycle.stop_runtime
    qq_bot_v.Schedules.Runtime.Lifecycle.begin_start qq_bot_v.Schedules.Model.validate_schedule_jobs
    qq_bot_v.Schedules.Model.are_valid
stop_overridden = refl

-- The end of that stop takes the jobs and leaves the store and the timers.
abbrev overridden_stop : ScheduleRuntime
overridden_stop =
    run no_dates (start_begun ∷ stopped_once ∷ start_finished no_faults 500 ∷ stop_finished ∷ [])
      (created_runtime (tea ∷ []) [] none)

overridden_stop_cleared :
    (overridden_stop.phase ≡ started)
    × (overridden_stop.jobs ≡ [])
    × (length overridden_stop.timers ≡ 1)
    × (overridden_stop.stored ≡ tea ∷ [])
unfolding qq_bot_v.Schedules.Runtime.Runs.step qq_bot_v.Schedules.Runtime.Lifecycle.finish_stop
    qq_bot_v.Schedules.Runtime.Lifecycle.finish_start
    qq_bot_v.Schedules.Runtime.Lifecycle.stop_runtime
    qq_bot_v.Schedules.Runtime.Lifecycle.begin_start qq_bot_v.Schedules.Model.validate_schedule_jobs
    qq_bot_v.Schedules.Model.are_valid qq_bot_v.Schedules.Model.is_valid_job qq_bot_v.Prelude.trim
overridden_stop_cleared = (refl, refl, refl, refl)

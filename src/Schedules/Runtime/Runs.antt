-- ===== src/Schedules/Runtime/Runs.antt =====
-- Runs of the runtime: operations in any order, with any faults.
use qq_bot_v.Prelude.{
  ℕ, ◌≡◌, refl, sym, Bool, true, false, ◌&&◌, ◌||◌, Option, List, [], ◌∷◌, nat_eq, text_eq, Text,
  All, if_each, arith,
}
use mathlib.Core.Path.{subst}
use qq_bot_v.Schedules.Model.{ScheduleJob}
use qq_bot_v.Schedules.Occurrences.{ScheduleOccurrence}
use qq_bot_v.Schedules.Runtime.{
  Phase, new, starting, started, stopped, ScheduleRuntime, Faults, CreateInput, is_started,
}
use qq_bot_v.Schedules.Runtime.Timers.{IsLive}
use qq_bot_v.Schedules.Runtime.Create.{create}
use qq_bot_v.Schedules.Runtime.Fire.{timer_fired}
use qq_bot_v.Schedules.Runtime.Lifecycle.{
  cancel_schedule, is_over, stop_runtime, finish_stop, may_start, begin_start, finish_start,
}
use qq_bot_v.Schedules.Runtime.Laws.{Agreed, Quiet, InStep, stopped_now-InStep}
use qq_bot_v.Schedules.Runtime.Mutations.{create-InStep, timer_fired-InStep, cancel_schedule-InStep}
use qq_bot_v.Schedules.Runtime.Starts.{begun-InStep, finish_start-InStep}

pub data Operation : Type 0 where
  created_with : Faults → CreateInput → ℕ → Text → Operation
  fired : Faults → Bool → ℕ → Text → ℕ → ℕ → Operation
  cancelled_with : Faults → Text → Operation
  start_begun stopped_once stop_finished : Operation
  start_finished : Faults → ℕ → Operation

abbrev is_stop_finished : Operation → Bool
is_stop_finished stop_finished = true
is_stop_finished _ = false

finish_stop-InStep :
    (s : ScheduleRuntime) → is_started s.phase ≡ false → InStep s → InStep (record s { jobs = [] })
finish_stop-InStep s off h =
    let (agreed, no_timers) = idle s.phase off h.quiet in
    record { agreed = agreed; live = subst (All (IsLive [])) (sym no_timers) tt; quiet = h.quiet }
  where
    idle :
        (p : Phase)
        → is_started p ≡ false
        → Quiet p s.loading s.timers
        → Agreed p s.stored [] × (s.timers ≡ [])
    idle new e q = (tt, q)
    idle starting e q = (tt, q)
    idle stopped e q = (tt, q)
    idle started e q = absurd (let bad : ⊥ = cc in bad)

module _ (parse_date : Text → Option ℕ) where
  unfoldable pub step : Operation → ScheduleRuntime → ScheduleRuntime
  step (created_with f input now id) s = (create parse_date f s input now id).1
  step (fired f fails delay id expected_at now) s = timer_fired f fails delay id expected_at now s
  step (cancelled_with f id) s = (cancel_schedule f id s).1
  step start_begun s = (begin_start s).1
  step stopped_once s = stop_runtime s
  step stop_finished s = finish_stop s
  step (start_finished f now) s = (finish_start f now s).1

  abbrev pub run : List Operation → ScheduleRuntime → ScheduleRuntime
  run [] s = s
  run (op ∷ ops) s = run ops (step op s)

  -- The end of some stop clears the jobs while the runtime is started.
  abbrev pub clears_started : List Operation → ScheduleRuntime → Bool
  clears_started [] s = false
  clears_started (op ∷ ops) s =
      (is_stop_finished op && is_started s.phase) || clears_started ops (step op s)

  step-InStep :
      (op : Operation) (s : ScheduleRuntime)
      → (is_stop_finished op && is_started s.phase) ≡ false
      → InStep s
      → InStep (step op s)
  unfolding step stop_runtime begin_start finish_stop
  step-InStep (created_with f input now id) s on h = create-InStep parse_date f s input now id h
  step-InStep (fired f fails delay id expected_at now) s on h =
      timer_fired-InStep f fails delay id expected_at now s h
  step-InStep (cancelled_with f id) s on h = cancel_schedule-InStep f id s h
  step-InStep start_begun s on h = begun-InStep s (may_start s.phase) refl h
  step-InStep stop_finished s on h = finish_stop-InStep s on h
  step-InStep stopped_once s on h =
      if_each InStep (is_over s.phase) _ _ (λ over. h) (λ runs. stopped_now-InStep s)
  step-InStep (start_finished f now) s on h = finish_start-InStep f now s h

  run-from :
      (ops : List Operation) (s : ScheduleRuntime)
      → clears_started ops s ≡ false
      → InStep s
      → InStep (run ops s)
  run-from [] s orderly h = h
  run-from (op ∷ ops) s orderly h =
      run-from ops (step op s) (ground (arith, orderly))
        (step-InStep op s (ground (arith, orderly)) h)

-- A runtime that was created and not started, with what its stores hold.
abbrev pub created_runtime :
    List ScheduleJob → List ScheduleOccurrence → Option (List ScheduleOccurrence) → ScheduleRuntime
created_runtime stored occurrences deliveries = record {
  phase = new;
  loading = false;
  jobs = [];
  timers = [];
  stored = stored;
  occurrences = occurrences;
  deliveries = deliveries;
  events = [];
}

-- Whatever is done with a new runtime, in any order, with any of its calls failing and with stops
-- at any time, where the end of a stop does not clear the jobs of a runtime that is started (as
-- it does where a start has overridden the stop): while it is started, the store has exactly its
-- jobs, up to the trimming of texts, and these are valid, so at most 20 with different ids and
-- names; every timer waits for the time of a job that is there; and a runtime that is not started
-- has no timer.
pub run-InStep :
    (parse_date : Text → Option ℕ) (stored : List ScheduleJob)
    (occurrences : List ScheduleOccurrence) (deliveries : Option (List ScheduleOccurrence))
    (ops : List Operation)
    → clears_started parse_date ops (created_runtime stored occurrences deliveries) ≡ false
    → InStep (run parse_date ops (created_runtime stored occurrences deliveries))
run-InStep parse_date stored occurrences deliveries ops orderly =
    run-from parse_date ops (created_runtime stored occurrences deliveries) orderly
      (record { agreed = tt; live = tt; quiet = refl })

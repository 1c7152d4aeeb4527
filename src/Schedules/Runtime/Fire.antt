-- ===== src/Schedules/Runtime/Fire.antt =====
-- A timer that fires: `queueTimer` and `processTimer` of the runtime.
use qq_bot_v.Prelude.{
  ℕ, Bool, true, false, not, ◌&&◌, Option, none, some, List, [], ◌∷◌, ◌++◌, ltb, leb, ◌==◌, nat_eq,
  text_eq, Text, length, if◌then◌else◌,
}
use qq_bot_v.Schedules.Model.{ScheduleJob}
use qq_bot_v.Schedules.Occurrences.{
  ScheduleOccurrence, parse_occurrence, record_occurrence, find_occurrence,
}
use qq_bot_v.Schedules.Runtime.{
  Wake, ScheduleRuntime, Faults, find_job, without, replaced, clear_job_timer, set_timer,
  is_started, settle, arm_job,
}

abbrev pub occurrence_of : ScheduleJob → ScheduleOccurrence
occurrence_of j = record {
  schedule_id = j.id;
  name = j.name;
  intention = j.intention;
  scheduled_for = j.at;
}

abbrev pub max_pending_deliveries : ℕ
max_pending_deliveries = 200

abbrev pub pending_parsed :
    List ScheduleOccurrence → Option ScheduleOccurrence → Option (Option (List ScheduleOccurrence))
pending_parsed ds none = none
pending_parsed ds (some o) = elim (find_occurrence o.schedule_id ds) [
  | none ↦ if leb max_pending_deliveries (length ds) then none else some (some (ds ++ o ∷ []))
  | some other ↦
      if other.name == o.name
        && (other.intention == o.intention && other.scheduled_for == o.scheduled_for)
      then some (some ds)
      else none
]

-- The pending delivery of the occurrence (src/agent/schedule-delivery-store.ts: recordPending),
-- where there is a store for it.
abbrev pub pending :
    Bool
    → ScheduleOccurrence
    → Option (List ScheduleOccurrence)
    → Option (Option (List ScheduleOccurrence))
pending fails raw none = some none
pending fails raw (some ds) = if fails then none else pending_parsed ds (parse_occurrence raw)

-- After the store is replaced: the timer is cleared and the event is put into the queue.
abbrev pub sent : Faults → ScheduleJob → ScheduleRuntime → ScheduleRuntime
sent f j s =
    let wake : Wake = record { schedule_id = j.id; name = j.name; scheduled_for = j.at } in
    let cleared = clear_job_timer j.id s in
    if f.enqueue_fails then cleared else record cleared { events = s.events ++ wake ∷ [] }

-- `true` where `processTimer` threw.
abbrev pub fire_stored :
    Faults → ScheduleJob → ScheduleRuntime → Option (List ScheduleJob) → Bool × ScheduleRuntime
fire_stored f j s none = (true, s)
fire_stored f j s (some saved) =
    (false, sent f j (record s { stored = saved; jobs = without j.id s.jobs }))

abbrev pub fire_delivered :
    Faults
    → ScheduleJob
    → ScheduleRuntime
    → Option (Option (List ScheduleOccurrence))
    → Bool × ScheduleRuntime
fire_delivered f j s none = (true, s)
fire_delivered f j s (some ds) =
    fire_stored f j (record s { deliveries = ds }) (replaced f.store_fails (without j.id s.jobs))

abbrev pub fire_recorded :
    Faults
    → ScheduleJob
    → ScheduleRuntime
    → Option (List ScheduleOccurrence)
    → Bool × ScheduleRuntime
fire_recorded f j s none = (true, s)
fire_recorded f j s (some os) =
    fire_delivered f j (record s { occurrences = os })
      (pending f.delivery_fails (occurrence_of j) s.deliveries)

abbrev pub recorded : Faults → ScheduleJob → ScheduleRuntime → Option (List ScheduleOccurrence)
recorded f j s =
    if f.occurrence_fails then none else record_occurrence s.occurrences (occurrence_of j)

abbrev pub process_job :
    Faults → ℕ → ℕ → ScheduleRuntime → Option ScheduleJob → Bool × ScheduleRuntime
process_job f expected_at now s none = (false, s)
process_job f expected_at now s (some j) =
    if not (j.at == expected_at)
    then (false, s)
    else if ltb now expected_at
    then arm_job f.timer_fails now j s
    else fire_recorded f j s (recorded f j s)

unfoldable pub process_timer : Faults → Text → ℕ → ℕ → ScheduleRuntime → Bool × ScheduleRuntime
process_timer f id expected_at now s =
    if is_started s.phase then process_job f expected_at now s (find_job id s.jobs) else (false, s)

-- The retry of a processing that threw; `retry_timer_fails` says that its `setTimer` throws too.
abbrev pub retry_job : ℕ → Bool → Text → ℕ → ScheduleRuntime → Option ScheduleJob → ScheduleRuntime
retry_job retry_delay_ms fails id expected_at s none = s
retry_job retry_delay_ms fails id expected_at s (some j) =
    if is_started s.phase && j.at == expected_at
    then (let cleared = clear_job_timer id s in
        if fails then cleared else set_timer id retry_delay_ms expected_at cleared)
    else s

abbrev pub after_processing : ℕ → Bool → Text → ℕ → Bool × ScheduleRuntime → ScheduleRuntime
after_processing retry_delay_ms fails id expected_at (false, s) = s
after_processing retry_delay_ms fails id expected_at (true, s) =
    retry_job retry_delay_ms fails id expected_at s (find_job id s.jobs)

-- `queueTimer`. A stop that comes meanwhile lets the processing end, without its timers.
unfoldable pub timer_fired : Faults → Bool → ℕ → Text → ℕ → ℕ → ScheduleRuntime → ScheduleRuntime
unfolding process_timer
timer_fired f retry_fails retry_delay_ms id expected_at now s = settle f.stops_meanwhile (
    after_processing retry_delay_ms retry_fails id expected_at
      (process_timer f id expected_at now s))

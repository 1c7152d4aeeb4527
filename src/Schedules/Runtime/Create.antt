-- ===== src/Schedules/Runtime/Create.antt =====
-- The operation `create` of the runtime.
use qq_bot_v.Prelude.{
  ℕ, Bool, ◌&&◌, ◌||◌, Option, none, some, List, [], ◌∷◌, ◌++◌, ltb, leb, ◌==◌, nat_eq, text_eq,
  Text, trim, is_empty, length, find, if◌then◌else◌, Result, ok, err, ◌>>=◌, ◌>>◌,
}
use qq_bot_v.Schedules.Model.{
  ScheduleJob, ScheduleModelError, normalize_schedule_at, validate_schedule_jobs,
  max_active_schedules, max_name_length, max_intention_length,
}
use qq_bot_v.Schedules.Runtime.{
  stopped, ScheduleRuntime, Faults, ScheduleError, invalid_input, model_error, name_conflict,
  active_limit_reached, validation_failed, persistence_failed, timer_failed, CreateInput,
  CreateResult, created, existing, put_job, replaced, settle, arm_job, assert_started,
}

abbrev normalize_text : Text → ℕ → Result ScheduleError Text
normalize_text value limit =
    let normalized = trim value in
    if is_empty normalized || ltb limit (length normalized)
    then err invalid_input
    else ok normalized

abbrev lift_model : Result ScheduleModelError ℕ → Result ScheduleError ℕ
lift_model (ok at) = ok at
lift_model (err e) = err (model_error e)

-- The job that a request asks for, before the store is asked.
pub data Request : Type 0 where
  found : ScheduleJob → Request
  fresh : ScheduleJob → Request

abbrev requested : ScheduleRuntime → ScheduleJob → Option ScheduleJob → Result ScheduleError Request
requested s j (some other) =
    if other.intention == j.intention && other.at == j.at
    then ok (found other)
    else err (name_conflict other.id)
requested s j none =
    if leb max_active_schedules (length s.jobs) then err active_limit_reached else ok (fresh j)

abbrev validated :
    ScheduleRuntime → Request → Option (List ScheduleJob) → Result ScheduleError Request
validated s r none = err validation_failed
validated s r (some js) = ok r

abbrev checked : ScheduleRuntime → Request → Result ScheduleError Request
checked s (found j) = ok (found j)
checked s (fresh j) = validated s (fresh j) (validate_schedule_jobs (s.jobs ++ j ∷ []))

module _ (parse_date : Text → Option ℕ) where
  unfoldable pub request : ScheduleRuntime → CreateInput → ℕ → Text → Result ScheduleError Request
  request s input now id = do
    assert_started s.phase
    name ← normalize_text input.name max_name_length
    intention ← normalize_text input.intention max_intention_length
    at ← lift_model (normalize_schedule_at parse_date input.at now)
    r ←
        requested s
          (record { id = id; name = name; intention = intention; at = at; created_at = now })
          (find (λ j. j.name == name) s.jobs)
    checked s r

abbrev pub armed_result : ScheduleJob → Bool → Result ScheduleError CreateResult
armed_result j failed = if failed then err timer_failed else ok (created j)

-- The rest of `create`, from `store.replace` on.
abbrev pub persist_new :
    Faults
    → ℕ
    → ScheduleJob
    → ScheduleRuntime
    → Option (List ScheduleJob)
    → Result ScheduleError CreateResult × ScheduleRuntime
persist_new f now j s none = (err persistence_failed, settle f.stops_meanwhile s)
persist_new f now j s (some saved) =
    let here = record s { stored = saved; jobs = put_job j s.jobs } in
    let armed =
      arm_job f.timer_fails now j
        (if f.stops_meanwhile then record here { phase = stopped; timers = [] } else here) in
    (armed_result j armed.0, settle f.stops_meanwhile armed.1)

abbrev pub create_requested :
    Faults
    → ℕ
    → ScheduleRuntime
    → Result ScheduleError Request
    → Result ScheduleError CreateResult × ScheduleRuntime
create_requested f now s (err e) = (err e, s)
create_requested f now s (ok (found j)) = (ok (existing j), s)
create_requested f now s (ok (fresh j)) =
    persist_new f now j s (replaced f.store_fails (s.jobs ++ j ∷ []))

unfoldable pub create :
    (Text → Option ℕ)
    → Faults
    → ScheduleRuntime
    → CreateInput
    → ℕ
    → Text
    → Result ScheduleError CreateResult × ScheduleRuntime
unfolding request
create parse_date f s input now id = create_requested f now s (request parse_date s input now id)

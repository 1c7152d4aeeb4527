-- ===== src/Schedules/Model.antt =====
-- Scheduled jobs and their limits (src/agent/schedule-model.ts, and validateScheduleJobs of
-- src/agent/schedule-store.ts). A time is its milliseconds since the epoch, where the source has
-- ISO texts and dates; `parse_date` gives the time that a text stands for, if it is a real one.
pub mod Laws
use qq_bot_v.Prelude.{
  ℕ, ◌+◌, ◌*◌, Bool, true, not, ◌&&◌, Option, none, some, List, [], ◌∷◌, map, ltb, leb, nat_eq,
  text_eq, Text, trim, is_empty, length, has, if◌then◌else◌, Result, ok, err,
}

abbrev pub min_at_delay_ms : ℕ
min_at_delay_ms = 30000

abbrev pub max_lifetime_ms : ℕ
max_lifetime_ms = 259200000

abbrev pub max_active_schedules : ℕ
max_active_schedules = 20

abbrev pub max_id_length : ℕ
max_id_length = 200

abbrev pub max_name_length : ℕ
max_name_length = 100

abbrev pub max_intention_length : ℕ
max_intention_length = 1000

pub record ScheduleJob : Type 0 where
  pub id : Text
  pub name : Text
  pub intention : Text
  pub at : ℕ
  pub created_at : ℕ

-- A delay is a whole number of seconds.
pub data ScheduleAtInput : Type 0 where
  at_text : Text → ScheduleAtInput
  after_seconds : ℕ → ScheduleAtInput

pub data ScheduleModelError : Type 0 where
  invalid_schedule outside_schedule_window : ScheduleModelError

-- At least 30 seconds and at most three days later.
abbrev pub within_window : ℕ → ℕ → Bool
within_window now at = leb (now + min_at_delay_ms) at && leb at (now + max_lifetime_ms)

abbrev pub checked_at : ℕ → Option ℕ → Result ScheduleModelError ℕ
checked_at now none = err invalid_schedule
checked_at now (some at) = if within_window now at then ok at else err outside_schedule_window

module _ (parse_date : Text → Option ℕ) where
  abbrev pub requested_at : ScheduleAtInput → ℕ → Option ℕ
  requested_at (at_text s) now = parse_date s
  requested_at (after_seconds n) now = if ltb 0 n then some (now + n * 1000) else none

  unfoldable pub normalize_schedule_at : ScheduleAtInput → ℕ → Result ScheduleModelError ℕ
  normalize_schedule_at input now = checked_at now (requested_at input now)

-- The texts are trimmed when a job is validated.
abbrev pub trimmed : ScheduleJob → ScheduleJob
trimmed j = record j { id = trim j.id; name = trim j.name; intention = trim j.intention }

abbrev pub fits_limit : ℕ → Text → Bool
fits_limit limit s = not (is_empty s) && leb (length s) limit

-- `scheduleJobSchema`, on the trimmed texts.
unfoldable pub is_valid_job : ScheduleJob → Bool
is_valid_job j =
    fits_limit max_id_length j.id
    && (fits_limit max_name_length j.name
        && (fits_limit max_intention_length j.intention && within_window j.created_at j.at))

abbrev pub all_valid : List ScheduleJob → Bool
all_valid [] = true
all_valid (j ∷ js) = is_valid_job j && all_valid js

abbrev pub unique : List Text → Bool
unique [] = true
unique (s ∷ ss) = not (has s ss) && unique ss

abbrev pub job_ids : List ScheduleJob → List Text
job_ids js = map (λ j. j.id) js

abbrev pub job_names : List ScheduleJob → List Text
job_names js = map (λ j. j.name) js

-- `schedulesSchema`, on the trimmed texts.
unfoldable pub are_valid : List ScheduleJob → Bool
are_valid js =
    leb (length js) max_active_schedules
    && (all_valid js && (unique (job_ids js) && unique (job_names js)))

unfoldable pub validate_schedule_jobs : List ScheduleJob → Option (List ScheduleJob)
validate_schedule_jobs js =
    let clean = map trimmed js in if are_valid clean then some clean else none

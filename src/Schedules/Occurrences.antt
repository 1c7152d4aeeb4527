-- ===== src/Schedules/Occurrences.antt =====
-- The occurrences of schedules (src/agent/schedule-occurrence-store.ts: recordOccurrence), in a
-- store whose occurrences the schema has accepted.
use qq_bot_v.Prelude.{
  ℕ, ◌-◌, Bool, ◌&&◌, Option, none, some, List, [], ◌∷◌, ◌++◌, ◌==◌, nat_eq, text_eq, Text, length,
  drop, find, trim, if◌then◌else◌,
}
use qq_bot_v.Schedules.Model.{fits_limit, max_id_length, max_name_length, max_intention_length}

pub record ScheduleOccurrence : Type 0 where
  pub schedule_id : Text
  pub name : Text
  pub intention : Text
  pub scheduled_for : ℕ

abbrev pub max_occurrences : ℕ
max_occurrences = 200

-- The test by `JSON.stringify`.
abbrev pub same_occurrence : ScheduleOccurrence → ScheduleOccurrence → Bool
same_occurrence a b =
    a.schedule_id == b.schedule_id
    && (a.name == b.name && (a.intention == b.intention && a.scheduled_for == b.scheduled_for))

abbrev pub find_occurrence : Text → List ScheduleOccurrence → Option ScheduleOccurrence
find_occurrence id os = find (λ o. o.schedule_id == id) os

-- `slice(-200)`.
abbrev pub keep_last : ℕ → List ScheduleOccurrence → List ScheduleOccurrence
keep_last n os = drop (length os - n) os

abbrev pub record_new :
    List ScheduleOccurrence
    → ScheduleOccurrence
    → Option ScheduleOccurrence
    → Option (List ScheduleOccurrence)
record_new current o none = some (keep_last max_occurrences (current ++ o ∷ []))
record_new current o (some existing) = if same_occurrence existing o then some current else none

abbrev pub trimmed_occurrence : ScheduleOccurrence → ScheduleOccurrence
trimmed_occurrence o = record o {
  schedule_id = trim o.schedule_id;
  name = trim o.name;
  intention = trim o.intention;
}

-- `occurrenceSchema.parse`: the texts are trimmed, and then neither empty nor too long.
unfoldable pub parse_occurrence : ScheduleOccurrence → Option ScheduleOccurrence
parse_occurrence raw =
    let o = trimmed_occurrence raw in
    if fits_limit max_id_length o.schedule_id
      && (fits_limit max_name_length o.name && fits_limit max_intention_length o.intention)
    then some o
    else none

abbrev pub record_parsed :
    List ScheduleOccurrence → Option ScheduleOccurrence → Option (List ScheduleOccurrence)
record_parsed current none = none
record_parsed current (some o) = record_new current o (find_occurrence o.schedule_id current)

-- None where the schema refuses the occurrence, or another one of the schedule is there.
unfoldable pub record_occurrence :
    List ScheduleOccurrence → ScheduleOccurrence → Option (List ScheduleOccurrence)
record_occurrence current raw = record_parsed current (parse_occurrence raw)

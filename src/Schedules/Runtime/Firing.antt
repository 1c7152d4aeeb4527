-- ===== src/Schedules/Runtime/Firing.antt =====
-- When the runtime sends the event of a schedule.
use qq_bot_v.Prelude.{
  ℕ, ◌≤◌, ◌≡◌, refl, ap, ◌∙◌, ◌⊎◌, inl, inr, Bool, true, false, not, Option, none, some, List, [],
  ◌∷◌, ◌++◌, ltb, ◌==◌, nat_eq, text_eq, Text, if_each, if◌then◌else◌, arith, Bool-cases,
}
use mathlib.Core.Path.{subst}
use qq_bot_v.Schedules.Model.{ScheduleJob}
use qq_bot_v.Schedules.Occurrences.{ScheduleOccurrence, record_occurrence}
use qq_bot_v.Schedules.Runtime.{
  started, Wake, ScheduleRuntime, Faults, find_job, without, replaced, is_started, arm_job,
}
use qq_bot_v.Schedules.Runtime.Timers.{is_started-started, find_job-has_job}
use qq_bot_v.Schedules.Runtime.Fire.{
  occurrence_of, pending, fire_stored, fire_delivered, fire_recorded, recorded, process_job,
  process_timer,
}
use qq_bot_v.Schedules.Runtime.Recorded.{IsRecorded, record_occurrence-IsRecorded}

abbrev pub wake_of : ScheduleJob → Wake
wake_of j = record { schedule_id = j.id; name = j.name; scheduled_for = j.at }

-- From `s` to `t`, the event of a due job is sent, and the job is gone.
pub record Fires (id : Text) (expected_at now : ℕ) (s t : ScheduleRuntime) : Type 0 where
  pub job : ScheduleJob
  pub there : find_job id s.jobs ≡ some job
  pub on_time : job.at ≡ expected_at
  pub due : expected_at ≤ now
  pub running : s.phase ≡ started
  pub event : t.events ≡ s.events ++ wake_of job ∷ []
  pub gone : find_job id t.jobs ≡ none
  pub known : IsRecorded (occurrence_of job) t.occurrences

abbrev pub Silent : ScheduleRuntime → ScheduleRuntime → Type 0
Silent s t = t.events ≡ s.events

without-find : (id : Text) (js : List ScheduleJob) → find_job id (without id js) ≡ none
without-find id [] = refl
without-find id (k ∷ ks) = elim (Bool-cases (k.id == id)) [
  | inl same ↦ rw same (without-find id ks)
  | inr other ↦ rw other (rw other (without-find id ks))
]

-- What the parts of a processing of `j` leave of `s`: silence, or the event with the jobs left.
abbrev Part : ScheduleJob → ScheduleRuntime → Bool × ScheduleRuntime → Type 0
Part j s p =
    Silent s p.1
    ⊎ ((p.1.events ≡ s.events ++ wake_of j ∷ [])
        × ((p.1.jobs ≡ without j.id s.jobs) × IsRecorded (occurrence_of j) p.1.occurrences))

fire_stored-Part :
    (f : Faults) (j : ScheduleJob) (s : ScheduleRuntime) (o : Option (List ScheduleJob))
    → IsRecorded (occurrence_of j) s.occurrences
    → Part j s (fire_stored f j s o)
fire_stored-Part f j s none k = inl refl
fire_stored-Part f j s (some saved) k =
    if_each (λ t. Part j s (false, t)) f.enqueue_fails _ _ (λ failed. inl refl)
      (λ sends. inr (refl, (refl, k)))

fire_recorded-Part :
    (f : Faults) (j : ScheduleJob) (s : ScheduleRuntime) (o : Option (List ScheduleOccurrence))
    → recorded f j s ≡ o
    → Part j s (fire_recorded f j s o)
fire_recorded-Part f j s none e = inl refl
fire_recorded-Part f j s (some os) e =
    by_pending (pending f.delivery_fails (occurrence_of j) s.deliveries)
  where
    found :
        (fails : Bool)
        → (if fails then none else record_occurrence s.occurrences (occurrence_of j)) ≡ some os
        → IsRecorded (occurrence_of j) os
    found true h = absurd (let bad : ⊥ = cc in bad)
    found false h = record_occurrence-IsRecorded s.occurrences os (occurrence_of j) h

    by_pending :
        (ds : Option (Option (List ScheduleOccurrence)))
        → Part j s (fire_delivered f j (record s { occurrences = os }) ds)
    by_pending none = inl refl
    by_pending (some ds) =
        fire_stored-Part f j (record s { occurrences = os; deliveries = ds })
          (replaced f.store_fails (without j.id s.jobs)) (found f.occurrence_fails e)

arm_job-Silent :
    (fails : Bool) (now : ℕ) (j : ScheduleJob) (s : ScheduleRuntime)
    → Silent s (arm_job fails now j s).1
arm_job-Silent fails now j s =
    if_each (λ (p : Bool × ScheduleRuntime). Silent s p.1) (not (is_started s.phase)) _ _
      (λ idle. refl)
      (λ on.
        if_each (λ (p : Bool × ScheduleRuntime). Silent s p.1) fails _ _ (λ failed. refl)
          (λ works. refl))

abbrev Outcome : Text → ℕ → ℕ → ScheduleRuntime → Bool × ScheduleRuntime → Type 0
Outcome id expected_at now s p = Silent s p.1 ⊎ Fires id expected_at now s p.1

process_job-Outcome :
    (f : Faults) (id : Text) (expected_at now : ℕ) (s : ScheduleRuntime) (o : Option ScheduleJob)
    → find_job id s.jobs ≡ o
    → s.phase ≡ started
    → Outcome id expected_at now s (process_job f expected_at now s o)
process_job-Outcome f id expected_at now s none e b = inl refl
process_job-Outcome f id expected_at now s (some j) e b =
    if_each (Outcome id expected_at now s) (not (j.at == expected_at)) _ _ (λ stale. inl refl)
      (λ current.
        if_each (Outcome id expected_at now s) (ltb now expected_at) _ _
          (λ early. inl (arm_job-Silent f.timer_fails now j s))
          (λ late.
            by_part (not_equal (j.at == expected_at) current) late
              (fire_recorded-Part f j s (recorded f j s) refl)))
  where
    not_equal : (b : Bool) → not b ≡ false → b ≡ true
    not_equal true h = refl
    not_equal false h = absurd (let bad : ⊥ = cc in bad)

    by_part :
        (j.at == expected_at) ≡ true
        → ltb now expected_at ≡ false
        → Part j s (fire_recorded f j s (recorded f j s))
        → Outcome id expected_at now s (fire_recorded f j s (recorded f j s))
    by_part same late (inl silent) = inl silent
    by_part same late (inr (event, (left, known))) =
        let named = (find_job-has_job id s.jobs j e).0 in
        inr (record {
          job = j;
          there = e;
          on_time = ground (arith, same);
          due = ground (arith, late);
          running = b;
          event = event;
          gone =
              subst (λ i. find_job i (fire_recorded f j s (recorded f j s)).1.jobs ≡ none) named
                (ap (find_job j.id) left ∙ without-find j.id s.jobs);
          known = known;
        })

-- A timer that fires sends no event, or the one event of a job that is there for the timer's time,
-- in a started runtime and not before that time. Then its occurrence, with its texts trimmed, has
-- been recorded under its id, and the job is gone.
pub process_timer-Fires :
    (f : Faults) (id : Text) (expected_at now : ℕ) (s : ScheduleRuntime)
    → ((process_timer f id expected_at now s).1.events ≡ s.events)
      ⊎ Fires id expected_at now s (process_timer f id expected_at now s).1
unfolding process_timer
process_timer-Fires f id expected_at now s =
    if_each (Outcome id expected_at now s) (is_started s.phase) _ _
      (λ on.
        process_job-Outcome f id expected_at now s (find_job id s.jobs) refl
          (is_started-started s.phase on))
      (λ off. inl refl)

-- ===== src/Tasks/Scheduler/Exclusion.antt =====
-- What every operation keeps: the limits of the lanes and the exclusion of resources.
use qq_bot_v.Prelude.{
  ℕ, ◌+◌, ◌≤◌, ◌≡◌, refl, ap, ◌⊎◌, inl, inr, true, ◌||◌, Option, none, some, List, [], ◌∷◌, ltb,
  ◌==◌, nat_eq, text_eq, Text, find, has, is_empty, arith, All, Bool-cases, Result, ok, err,
}
use mathlib.Core.Path.{subst}
use qq_bot_v.Tasks.Scheduler.{
  Job, Lane, Scheduler, SchedulerError, lanes_from, scheduler_of, is_known, create_task_scheduler,
  push_job, remember, existing, schedule_new, schedule, end_job, finish_job, drain, is_idle,
}
use qq_bot_v.Tasks.Scheduler.Laws.{held, total, marked, Fits, Sound, pump_all-Sound}
use qq_bot_v.Tasks.Scheduler.Ending.{ended-Sound}

push_job-Fits :
    (name : Text) (j : Job) (ls : List Lane) → All Fits ls → All Fits (push_job name j ls)
push_job-Fits name j [] h = tt
push_job-Fits name j (l ∷ ls) h = elim (Bool-cases (l.name == name)) [
  | inl same ↦ rw same h
  | inr other ↦ rw other (h.0, push_job-Fits name j ls h.1)
]

push_job-total :
    (k name : Text) (j : Job) (ls : List Lane) → total k (push_job name j ls) ≡ total k ls
push_job-total k name j [] = refl
push_job-total k name j (l ∷ ls) = elim (Bool-cases (l.name == name)) [
  | inl same ↦ rw same refl
  | inr other ↦ rw other (ap (λ n. held k l.running + n) (push_job-total k name j ls))
]

schedule_new-Sound :
    (s : Scheduler) (name : Text) (j : Job) (o : Option ℕ)
    → Sound s
    → Sound (schedule_new s name j o).1
schedule_new-Sound s name j (some id) h = h
schedule_new-Sound s name j none h =
    pump_all-Sound (record s { lanes = push_job name j s.lanes; deduped = remember j s.deduped })
      (record {
        fits = push_job-Fits name j s.lanes h.fits;
        exclusive = λ k. elim (h.exclusive k) [
          | inl unnamed ↦ inl unnamed
          | inr le ↦ inr (let e = push_job-total k name j s.lanes in omega arith)
        ];
      })

err-ok :
    {e : SchedulerError} {a : List Lane}
    → ¬ (◌≡◌ {A = Result SchedulerError (List Lane)} (err e) (ok a))
err-ok h = cc

pub Result-cases :
    (r : Result SchedulerError (List Lane))
    → ((a : List Lane) × (r ≡ ok a)) ⊎ ((e : SchedulerError) × (r ≡ err e))
Result-cases (ok a) = inl (a, refl)
Result-cases (err e) = inr (e, refl)

-- The lanes of a new scheduler run nothing.
abbrev Fresh : List Lane → Type 0
Fresh lanes = All Fits lanes × ((k : Text) → total k lanes ≡ 0)

ok-lanes : {a b : List Lane} → ◌≡◌ {A = Result SchedulerError (List Lane)} (ok a) (ok b) → a ≡ b
ok-lanes h = cc

lanes_from-Fresh :
    (config : List (Text × ℕ)) (lanes : List Lane) → lanes_from config ≡ ok lanes → Fresh lanes
lanes_from-Fresh [] lanes h = subst Fresh (ok-lanes h) (tt, λ k. refl)
lanes_from-Fresh ((name, concurrency) ∷ config) lanes h =
    elim (Bool-cases (is_empty name || ltb concurrency 1)) [
      | inl invalid ↦ absurd (err-ok (rw invalid at h))
      | inr valid ↦ elim (Result-cases (lanes_from config)) [
        | inr (e, p) ↦ absurd (err-ok (rw (valid, p) at h))
        | inl (rest, p) ↦
            let (fits, none_held) = lanes_from-Fresh config rest p in
            subst Fresh (ok-lanes (rw (valid, p) at h))
              (((refl, omega arith), fits), λ k. (let z = none_held k in omega arith))
      ]
    ]

ok-scheduler : {a b : Scheduler} → ◌≡◌ {A = Result SchedulerError Scheduler} (ok a) (ok b) → a ≡ b
ok-scheduler h = cc

pub create_task_scheduler-Sound :
    (config : List (Text × ℕ)) (s : Scheduler) → create_task_scheduler config ≡ ok s → Sound s
unfolding create_task_scheduler
create_task_scheduler-Sound config s h = from_lanes (lanes_from config) refl h
  where
    from_lanes :
        (r : Result SchedulerError (List Lane))
        → lanes_from config ≡ r
        → scheduler_of r ≡ ok s
        → Sound s
    from_lanes (err e) p h = cc
    from_lanes (ok lanes) p h =
        let (fits, none_held) = lanes_from-Fresh config lanes p in
        subst Sound (ok-scheduler h)
          (record { fits = fits; exclusive = λ k. inr (let z = none_held k in omega arith) })

pub data Operation : Type 0 where
  scheduled : Text → Job → Operation
  finished : Text → ℕ → Operation
  drained : ℕ → Operation

abbrev scheduler_or : Scheduler → Result SchedulerError (ℕ × Scheduler) → Scheduler
scheduler_or s (ok p) = p.1
scheduler_or s (err e) = s

-- A job for an unknown lane is refused.
unfoldable pub step : Operation → Scheduler → Scheduler
step (scheduled name j) s = scheduler_or s (schedule s name j)
step (finished name id) s = (finish_job s name id).0
step (drained waiter) s = (drain s waiter).1

abbrev pub run : List Operation → Scheduler → Scheduler
run [] s = s
run (op ∷ ops) s = run ops (step op s)

schedule-Sound :
    (s : Scheduler) (name : Text) (j : Job) → Sound s → Sound (scheduler_or s (schedule s name j))
unfolding schedule
schedule-Sound s name j h = elim (Bool-cases (is_known (find (λ l. l.name == name) s.lanes))) [
  | inl known ↦ rw known (schedule_new-Sound s name j (existing s j) h)
  | inr unknown ↦ rw unknown h
]

drain-Sound : (s : Scheduler) (waiter : ℕ) → Sound s → Sound (drain s waiter).1
unfolding drain
drain-Sound s waiter h = elim (Bool-cases (is_idle s.lanes)) [
  | inl idle ↦ rw idle h
  | inr busy ↦ rw busy (record { fits = h.fits; exclusive = h.exclusive })
]

step-Sound : (op : Operation) (s : Scheduler) → Sound s → Sound (step op s)
unfolding step finish_job
step-Sound (scheduled name j) s h = schedule-Sound s name j h
step-Sound (finished name id) s h = ended-Sound s name id (end_job name id s.lanes) refl h
step-Sound (drained waiter) s h = drain-Sound s waiter h

pub run-Sound : (ops : List Operation) (s : Scheduler) → Sound s → Sound (run ops s)
run-Sound [] s h = h
run-Sound (op ∷ ops) s h = run-Sound ops (step op s) (step-Sound op s h)

marked-one : (k : Text) (resources : List Text) → marked k resources ≤ 1
marked-one k resources = elim (Bool-cases (has k resources)) [
  | inl yes_marked ↦ rw yes_marked (omega arith)
  | inr unmarked ↦ rw unmarked (omega arith)
]

-- Whatever is scheduled on a new scheduler and however its jobs end, the counter of every lane is
-- the number of its running jobs and within the lane's limit, and no two running jobs, of one lane
-- or of two, have the same resource key, where the key is not empty.
pub run-excludes :
    (config : List (Text × ℕ)) (s : Scheduler) (ops : List Operation)
    → create_task_scheduler config ≡ ok s
    → All Fits (run ops s).lanes
      × ((k : Text) → (is_empty k ≡ true) ⊎ (total k (run ops s).lanes ≤ 1))
run-excludes config s ops h =
    let sound = run-Sound ops s (create_task_scheduler-Sound config s h) in
    (
      sound.fits,
      λ k. elim (sound.exclusive k) [
        | inl unnamed ↦ inl unnamed
        | inr le ↦ inr (let one = marked-one k (run ops s).active_resources in omega arith)
      ],
    )

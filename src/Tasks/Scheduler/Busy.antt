-- ===== src/Tasks/Scheduler/Busy.antt =====
-- No lane has room and a job whose resource is not marked.
use qq_bot_v.Prelude.{
  ℕ, zero, suc, ◌≤◌, ◌≡◌, refl, ◌⊎◌, inl, inr, true, false, ◌||◌, Option, none, some, List, [], ◌∷◌,
  ltb, ◌==◌, nat_eq, text_eq, Text, length, any, find, has, is_empty, arith, All, Bool-cases,
  Option-cases, Result, ok, err,
}
use mathlib.Core.Path.{subst}
use qq_bot_v.Tasks.Scheduler.{
  Job, Lane, Scheduler, SchedulerError, is_free, take_free, hold, started, pump_lane, pump_lanes,
  pump_all, is_known, existing, schedule_new, schedule, end_job, ended, finish_job, drain, is_idle,
  create_task_scheduler, lanes_from,
}
use qq_bot_v.Tasks.Scheduler.Exclusion.{
  Operation, scheduled, finished, drained, step, run, Result-cases,
}

-- The lane is full, or no job of its queue is free.
abbrev pub Stuck : List Text → Lane → Type 0
Stuck resources l = (ltb l.active l.concurrency ≡ false) ⊎ (any (is_free resources) l.queue ≡ false)

abbrev More : List Text → List Text → Type 0
More resources later = (k : Text) → has k resources ≡ true → has k later ≡ true

is_free-More :
    (resources later : List Text) (j : Job)
    → More resources later
    → is_free resources j ≡ false
    → is_free later j ≡ false
is_free-More resources later j more h = ground (arith, more j.resource_key, h)

any-More :
    (resources later : List Text) (js : List Job)
    → More resources later
    → any (is_free resources) js ≡ false
    → any (is_free later) js ≡ false
any-More resources later [] more h = refl
any-More resources later (j ∷ js) more h =
    ground (arith, is_free-More resources later j more, any-More resources later js more, h)

Stuck-More :
    (resources later : List Text) (l : Lane)
    → More resources later
    → Stuck resources l
    → Stuck later l
Stuck-More resources later l more (inl full) = inl full
Stuck-More resources later l more (inr taken) = inr (any-More resources later l.queue more taken)

none-some : {A : Type 0} {a : A} → ¬ (◌≡◌ {A = Option A} none (some a))
none-some h = cc

some-pair : {A : Type 0} {a b : A} → ◌≡◌ {A = Option A} (some a) (some b) → a ≡ b
some-pair h = cc

take_free-any :
    (resources : List Text) (js : List Job)
    → take_free resources js ≡ none
    → any (is_free resources) js ≡ false
take_free-any resources [] h = refl
take_free-any resources (j ∷ js) h = elim (Bool-cases (is_free resources j)) [
  | inl free ↦
      absurd (let h' : ◌≡◌ {A = Option (Job × List Job)} (some (j, js)) none = rw free at h in cc)
  | inr taken ↦ elim (Option-cases (take_free resources js)) [
    | inl e ↦ rw taken (take_free-any resources js e)
    | inr (q, e) ↦ absurd (
        let h' : ◌≡◌ {A = Option (Job × List Job)} (some (q.0, j ∷ q.1)) none =
          rw (taken, e) at h in
        cc)
  ]
]

take_free-length :
    (resources : List Text) (js : List Job) (p : Job × List Job)
    → take_free resources js ≡ some p
    → length js ≡ suc (length p.1)
take_free-length resources [] p h = absurd (none-some h)
take_free-length resources (j ∷ js) p h = elim (Bool-cases (is_free resources j)) [
  | inl free ↦
      subst (λ p. length (j ∷ js) ≡ suc (length p.1)) (some-pair (rw (take_free, free) at h)) refl
  | inr taken ↦ elim (Option-cases (take_free resources js)) [
    | inl e ↦ absurd (none-some (rw (taken, e) at h))
    | inr (q, e) ↦
        let shorter = take_free-length resources js q e in
        subst (λ p. length (j ∷ js) ≡ suc (length p.1)) (some-pair (rw (taken, e) at h))
          (omega arith)
  ]
]

pump_lane-Stuck :
    (fuel : ℕ) (l : Lane) (resources : List Text)
    → length l.queue ≤ fuel
    → Stuck (pump_lane fuel l resources).1 (pump_lane fuel l resources).0
unfolding pump_lane
pump_lane-Stuck zero l resources h = inr (no_jobs l.queue h)
  where
    no_jobs : (js : List Job) → length js ≤ 0 → any (is_free resources) js ≡ false
    no_jobs [] h = refl
    no_jobs (j ∷ js) h = absurd (let bad : ⊥ = omega arith in bad)
pump_lane-Stuck (suc fuel) l resources h = elim (Bool-cases (ltb l.active l.concurrency)) [
  | inr full ↦ rw (pump_lane, full) (inl full)
  | inl room ↦ elim (Option-cases (take_free resources l.queue)) [
    | inl stuck ↦ rw (pump_lane, room, stuck) (inr (take_free-any resources l.queue stuck))
    | inr (p, found) ↦
        rw (pump_lane, room, found)
          (pump_lane-Stuck fuel (started l p.0 p.1) (hold p.0 resources)
            (let shorter = take_free-length resources l.queue p found in omega arith))
  ]
]

hold-More : (j : Job) (resources : List Text) → More resources (hold j resources)
hold-More j resources k h = ground (arith, h)

pump_lane-More :
    (fuel : ℕ) (l : Lane) (resources : List Text) → More resources (pump_lane fuel l resources).1
unfolding pump_lane
pump_lane-More zero l resources k h = h
pump_lane-More (suc fuel) l resources k h = elim (Bool-cases (ltb l.active l.concurrency)) [
  | inr full ↦ rw (pump_lane, full) h
  | inl room ↦ elim (Option-cases (take_free resources l.queue)) [
    | inl stuck ↦ rw (pump_lane, room, stuck) h
    | inr (p, found) ↦
        rw (pump_lane, room, found)
          (pump_lane-More fuel (started l p.0 p.1) (hold p.0 resources) k
            (hold-More p.0 resources k h))
  ]
]

pump_lanes-More :
    (ls : List Lane) (resources : List Text) → More resources (pump_lanes ls resources).1
unfolding pump_lanes
pump_lanes-More [] resources k h = h
pump_lanes-More (l ∷ ls) resources k h =
    pump_lanes-More ls (pump_lane (length l.queue) l resources).1 k
      (pump_lane-More (length l.queue) l resources k h)

pump_lanes-Stuck :
    (ls : List Lane) (resources : List Text)
    → All (Stuck (pump_lanes ls resources).1) (pump_lanes ls resources).0
unfolding pump_lanes
pump_lanes-Stuck [] resources = tt
pump_lanes-Stuck (l ∷ ls) resources =
    let first = pump_lane (length l.queue) l resources in
    (
      Stuck-More first.1 (pump_lanes ls first.1).1 first.0 (pump_lanes-More ls first.1)
          (pump_lane-Stuck (length l.queue) l resources (omega arith)),
      pump_lanes-Stuck ls first.1,
    )

abbrev Busy : Scheduler → Type 0
Busy s = All (Stuck s.active_resources) s.lanes

pump_all-Busy : (s : Scheduler) → Busy (pump_all s).0
unfolding pump_all
pump_all-Busy s = pump_lanes-Stuck s.lanes s.active_resources

schedule_new-Busy :
    (s : Scheduler) (name : Text) (j : Job) (o : Option ℕ)
    → Busy s
    → Busy (schedule_new s name j o).1
schedule_new-Busy s name j (some id) h = h
schedule_new-Busy s name j none h = pump_all-Busy _

ended-Busy : (s : Scheduler) (o : Option (Job × List Lane)) → Busy s → Busy (ended s o).0
ended-Busy s none h = h
ended-Busy s (some p) h = pump_all-Busy _

drain-Busy : (s : Scheduler) (waiter : ℕ) → Busy s → Busy (drain s waiter).1
unfolding drain
drain-Busy s waiter h = elim (Bool-cases (is_idle s.lanes)) [
  | inl idle ↦ rw idle h
  | inr busy ↦ rw busy h
]

step-Busy : (op : Operation) (s : Scheduler) → Busy s → Busy (step op s)
unfolding step finish_job schedule
step-Busy (scheduled name j) s h =
    elim (Bool-cases (is_known (find (λ l. l.name == name) s.lanes))) [
      | inl known ↦ rw known (schedule_new-Busy s name j (existing s j) h)
      | inr unknown ↦ rw unknown h
    ]
step-Busy (finished name id) s h = ended-Busy s (end_job name id s.lanes) h
step-Busy (drained waiter) s h = drain-Busy s waiter h

pub run-Busy : (ops : List Operation) (s : Scheduler) → Busy s → Busy (run ops s)
run-Busy [] s h = h
run-Busy (op ∷ ops) s h = run-Busy ops (step op s) (step-Busy op s h)

err-ok :
    {A : Type 0} {e : SchedulerError} {a : A} → ¬ (◌≡◌ {A = Result SchedulerError A} (err e) (ok a))
err-ok h = cc

ok-ok : {A : Type 0} {a b : A} → ◌≡◌ {A = Result SchedulerError A} (ok a) (ok b) → a ≡ b
ok-ok h = cc

lanes_from-Stuck :
    (config : List (Text × ℕ)) (lanes : List Lane)
    → lanes_from config ≡ ok lanes
    → All (Stuck []) lanes
lanes_from-Stuck [] lanes h = subst (All (Stuck [])) (ok-ok h) tt
lanes_from-Stuck ((name, concurrency) ∷ config) lanes h =
    elim (Bool-cases (is_empty name || ltb concurrency 1)) [
      | inl invalid ↦ absurd (err-ok (rw invalid at h))
      | inr valid ↦ elim (Result-cases (lanes_from config)) [
        | inr (e, p) ↦ absurd (err-ok (rw (valid, p) at h))
        | inl (rest, p) ↦
            subst (All (Stuck [])) (ok-ok (rw (valid, p) at h))
              (inr refl, lanes_from-Stuck config rest p)
      ]
    ]

pub create_task_scheduler-Busy :
    (config : List (Text × ℕ)) (s : Scheduler) → create_task_scheduler config ≡ ok s → Busy s
unfolding create_task_scheduler
create_task_scheduler-Busy config s h = elim (Result-cases (lanes_from config)) [
  | inr (e, p) ↦ absurd (err-ok (rw p at h))
  | inl (lanes, p) ↦ subst Busy (ok-ok (rw p at h)) (lanes_from-Stuck config lanes p)
]

-- ===== src/Schedules/Runtime/Requests.antt =====
-- What a persisted mutation asks of the runtime leaves it in step: a created job and a processed timer.
use qq_bot_v.Prelude.{
  ℕ, ◌≡◌, refl, sym, Bool, true, not, Option, none, some, List, [], ◌∷◌, ◌++◌, ltb, ◌==◌, nat_eq,
  text_eq, Text, if_each, if◌then◌else◌, Result, ok, err, >>=-eq-ok,
}
use mathlib.Core.Path.{subst}
use qq_bot_v.Schedules.Model.{ScheduleJob}
use qq_bot_v.Schedules.Occurrences.{ScheduleOccurrence}
use qq_bot_v.Schedules.Runtime.{
  Phase, new, starting, started, stopped, ScheduleRuntime, Faults, ScheduleError, CreateInput,
  find_job, without, put_job, replaced, is_started, arm_job, assert_started,
}
use qq_bot_v.Schedules.Runtime.Timers.{
  is_started-started, has_job, has_job-put_self, find_job-has_job,
}
use qq_bot_v.Schedules.Runtime.Create.{
  Request, found, fresh, request, persist_new, create_requested,
}
use qq_bot_v.Schedules.Runtime.Fire.{
  occurrence_of, pending, fire_stored, fire_delivered, fire_recorded, recorded, process_job,
  process_timer,
}
use qq_bot_v.Schedules.Runtime.Laws.{
  InStep, settle-InStep, cleared-InStep, arm_job-InStep, InStep-Started, put_job-Started,
  without-Started,
}

pub assert_started-started : (p : Phase) {u : Unit {0}} → assert_started p ≡ ok u → p ≡ started
assert_started-started started h = refl
assert_started-started new h = absurd (let bad : ⊥ = cc in bad)
assert_started-started starting h = absurd (let bad : ⊥ = cc in bad)
assert_started-started stopped h = absurd (let bad : ⊥ = cc in bad)

pub request-started :
    (parse_date : Text → Option ℕ) (s : ScheduleRuntime) (input : CreateInput) (now : ℕ) (id : Text)
    (r : Request)
    → request parse_date s input now id ≡ ok r
    → s.phase ≡ started
unfolding request
request-started parse_date s input now id r h =
    let (u, got, _) = >>=-eq-ok (assert_started s.phase) _ h in assert_started-started s.phase got

persist_new-InStep :
    (f : Faults) (now : ℕ) (j : ScheduleJob) (s : ScheduleRuntime) (o : Option (List ScheduleJob))
    → replaced f.store_fails (s.jobs ++ j ∷ []) ≡ o
    → s.phase ≡ started
    → InStep s
    → InStep (persist_new f now j s o).1
persist_new-InStep f now j s none e b h = settle-InStep f.stops_meanwhile s (λ goes_on. h)
persist_new-InStep f now j s (some saved) e b h =
    let here = record s { stored = saved; jobs = put_job j s.jobs } in
    settle-InStep f.stops_meanwhile
      (arm_job f.timer_fails now j
        (if f.stops_meanwhile then record here { phase = stopped; timers = [] } else here)).1
      (λ goes_on.
        subst
          (λ t.
            InStep
              (arm_job f.timer_fails now j
                (if t then record here { phase = stopped; timers = [] } else here)).1)
          (sym goes_on)
          (arm_job-InStep f.timer_fails now j here (put_job-Started f.store_fails j s saved b h e)
            (has_job-put_self j s.jobs)))

pub create_requested-InStep :
    (f : Faults) (now : ℕ) (s : ScheduleRuntime) (r : Result ScheduleError Request)
    → ((q : Request) → r ≡ ok q → s.phase ≡ started)
    → InStep s
    → InStep (create_requested f now s r).1
create_requested-InStep f now s (err e) b h = h
create_requested-InStep f now s (ok (found j)) b h = h
create_requested-InStep f now s (ok (fresh j)) b h =
    persist_new-InStep f now j s (replaced f.store_fails (s.jobs ++ j ∷ [])) refl (b (fresh j) refl)
      h

fire_stored-InStep :
    (f : Faults) (j : ScheduleJob) (s : ScheduleRuntime) (o : Option (List ScheduleJob))
    → replaced f.store_fails (without j.id s.jobs) ≡ o
    → s.phase ≡ started
    → InStep s
    → InStep (fire_stored f j s o).1
fire_stored-InStep f j s none e b h = h
fire_stored-InStep f j s (some saved) e b h =
    let cleared =
      cleared-InStep j.id (record s { stored = saved; jobs = without j.id s.jobs })
        (without-Started f.store_fails j.id s saved b h e) in
    if_each InStep f.enqueue_fails _ _ (λ failed. cleared)
      (λ sends. record { agreed = cleared.agreed; live = cleared.live; quiet = cleared.quiet })

fire_delivered-InStep :
    (f : Faults) (j : ScheduleJob) (s : ScheduleRuntime)
    (o : Option (Option (List ScheduleOccurrence)))
    → s.phase ≡ started
    → InStep s
    → InStep (fire_delivered f j s o).1
fire_delivered-InStep f j s none b h = h
fire_delivered-InStep f j s (some ds) b h =
    fire_stored-InStep f j (record s { deliveries = ds })
      (replaced f.store_fails (without j.id s.jobs)) refl b
      (record { agreed = h.agreed; live = h.live; quiet = h.quiet })

fire_recorded-InStep :
    (f : Faults) (j : ScheduleJob) (s : ScheduleRuntime) (o : Option (List ScheduleOccurrence))
    → s.phase ≡ started
    → InStep s
    → InStep (fire_recorded f j s o).1
fire_recorded-InStep f j s none b h = h
fire_recorded-InStep f j s (some os) b h =
    fire_delivered-InStep f j (record s { occurrences = os })
      (pending f.delivery_fails (occurrence_of j) s.deliveries) b
      (record { agreed = h.agreed; live = h.live; quiet = h.quiet })

-- What a processing leaves.
abbrev pub Leaves : Bool × ScheduleRuntime → Type 0
Leaves p = InStep p.1

process_job-InStep :
    (f : Faults) (id : Text) (expected_at now : ℕ) (s : ScheduleRuntime) (o : Option ScheduleJob)
    → find_job id s.jobs ≡ o
    → s.phase ≡ started
    → InStep s
    → Leaves (process_job f expected_at now s o)
process_job-InStep f id expected_at now s none e b h = h
process_job-InStep f id expected_at now s (some j) e b h =
    let (named, there) = find_job-has_job id s.jobs j e in
    if_each Leaves (not (j.at == expected_at)) _ _ (λ stale. h)
      (λ current.
        if_each Leaves (ltb now expected_at) _ _
          (λ early.
            arm_job-InStep f.timer_fails now j s (InStep-Started j.id s b h)
              (subst (λ i. has_job s.jobs i j.at ≡ true) (sym named) there))
          (λ due. fire_recorded-InStep f j s (recorded f j s) b h))

pub process_timer-InStep :
    (f : Faults) (id : Text) (expected_at now : ℕ) (s : ScheduleRuntime)
    → InStep s
    → Leaves (process_timer f id expected_at now s)
unfolding process_timer
process_timer-InStep f id expected_at now s h =
    if_each Leaves (is_started s.phase) _ _
      (λ on.
        process_job-InStep f id expected_at now s (find_job id s.jobs) refl
          (is_started-started s.phase on) h)
      (λ off. h)

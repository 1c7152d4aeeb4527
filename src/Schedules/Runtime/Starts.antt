-- ===== src/Schedules/Runtime/Starts.antt =====
-- The operations `start` and `stop` keep the runtime in step.
use qq_bot_v.Prelude.{
  ℕ, ◌≡◌, refl, sym, Bool, true, false, not, Option, none, some, List, [], ◌∷◌, map, nat_eq,
  nat_beq_iff, text_eq, text_beq_iff, Text, All, if_each, Result, ok, err, arith,
}
use mathlib.Core.Path.{subst}
use qq_bot_v.Schedules.Model.{ScheduleJob, trimmed, are_valid}
use qq_bot_v.Schedules.Model.Laws.{map-trimmed_self}
use qq_bot_v.Schedules.Runtime.{
  Phase, new, starting, started, stopped, ScheduleRuntime, Faults, ScheduleError, ArmedTimer,
  replaced, is_started, arm_job,
}
use qq_bot_v.Schedules.Runtime.Timers.{has_job, IsLive}
use qq_bot_v.Schedules.Runtime.Lifecycle.{
  may_start, begun_start, arm_all, armed_start, start_loaded, finish_start,
}
use qq_bot_v.Schedules.Runtime.Laws.{Quiet, InStep, replaced-some, arm_job-InStep, InStep-Started}

-- All of the jobs are there.
abbrev AllThere : List ScheduleJob → List ScheduleJob → Type 0
AllThere jobs js = All (λ j. has_job jobs j.id j.at ≡ true) js

has_job-more :
    (k : ScheduleJob) (jobs : List ScheduleJob) (js : List ScheduleJob)
    → AllThere jobs js
    → AllThere (k ∷ jobs) js
has_job-more k jobs [] h = tt
has_job-more k jobs (j ∷ js) h = (ground (arith, h.0), has_job-more k jobs js h.1)

all_there : (js : List ScheduleJob) → AllThere js js
all_there [] = tt
all_there (j ∷ js) = (
  ground (arith, text_beq_iff j.id j.id, nat_beq_iff j.at j.at),
  has_job-more j js js (all_there js),
)

armed_start-InStep : (p : Bool × ScheduleRuntime) → InStep p.1 → InStep (armed_start p).1
armed_start-InStep (false, s) h = h
armed_start-InStep (true, s) h = record { agreed = tt; live = tt; quiet = refl }

arm_job-same :
    (fails : Bool) (now : ℕ) (j : ScheduleJob) (s : ScheduleRuntime)
    → (jobs : List ScheduleJob) → s.phase ≡ started
    → s.jobs ≡ jobs
    → ((arm_job fails now j s).1.phase ≡ started) × ((arm_job fails now j s).1.jobs ≡ jobs)
arm_job-same fails now j s jobs b e =
    if_each (λ (p : Bool × ScheduleRuntime). (p.1.phase ≡ started) × (p.1.jobs ≡ jobs))
      (not (is_started s.phase)) _ _ (λ idle. (b, e))
      (λ on.
        if_each (λ (p : Bool × ScheduleRuntime). (p.1.phase ≡ started) × (p.1.jobs ≡ jobs)) fails _
          _ (λ failed. (b, e)) (λ works. (b, e)))

arm_all-InStep :
    (fails : Bool) (now : ℕ) (jobs js : List ScheduleJob) (s : ScheduleRuntime)
    → s.phase ≡ started
    → s.jobs ≡ jobs
    → AllThere jobs js
    → InStep s
    → InStep (arm_all fails now js s).1
arm_all-InStep fails now jobs [] s b e there h = h
arm_all-InStep fails now jobs (j ∷ js) s b e there h =
    let armed = arm_job fails now j s in
    let (b', e') = arm_job-same fails now j s jobs b e in
    let here = subst (λ l. has_job l j.id j.at ≡ true) (sym e) there.0 in
    let sound = arm_job-InStep fails now j s (InStep-Started j.id s b h) here in
    if_each (λ (p : Bool × ScheduleRuntime). InStep p.1) armed.0 _ _ (λ failed. sound)
      (λ works. arm_all-InStep fails now jobs js armed.1 b' e' there.1 sound)

-- No timer is set before the load has ended.
unloaded :
    (p : Phase) (loading : Bool) (timers : List (Text × ArmedTimer))
    → loading ≡ true
    → Quiet p loading timers
    → timers ≡ []
unloaded started loading timers l q = absurd (let bad : ⊥ = cc in bad)
unloaded new loading timers l q = q
unloaded starting loading timers l q = q
unloaded stopped loading timers l q = q

start_loaded-InStep :
    (f : Faults) (now : ℕ) (s : ScheduleRuntime) (o : Option (List ScheduleJob))
    → replaced f.store_fails s.stored ≡ o
    → s.loading ≡ false
    → s.timers ≡ []
    → InStep (start_loaded f now s o).1
start_loaded-InStep f now s none e l t = record {
  agreed = tt;
  live = subst (All (IsLive s.jobs)) (sym t) tt;
  quiet = t;
}
start_loaded-InStep f now s (some loaded) e l t =
    let begun = record s { jobs = loaded; phase = started } in
    let (same, valid) = replaced-some f.store_fails s.stored loaded e in
    armed_start-InStep (arm_all f.timer_fails now loaded begun) (
      arm_all-InStep f.timer_fails now loaded loaded begun refl refl (all_there loaded) (record {
        agreed = (
          subst (λ js. map trimmed s.stored ≡ map trimmed js) (sym same)
              (sym (map-trimmed_self s.stored)),
          subst (λ js. are_valid (map trimmed js) ≡ true) (sym same)
              (subst (λ js. are_valid js ≡ true) (sym (map-trimmed_self s.stored))
                (subst (λ js. are_valid js ≡ true) same valid)),
        );
        live = subst (All (IsLive loaded)) (sym t) tt;
        quiet = l;
      }))

pub begun-InStep :
    (s : ScheduleRuntime) (r : Result ScheduleError (Unit {0}))
    → may_start s.phase ≡ r
    → InStep s
    → InStep (begun_start s r).1
begun-InStep s (err e) p h = h
begun-InStep s (ok u) p h = record { agreed = tt; live = h.live; quiet = idle s.phase p h.quiet }
  where
    idle : (q : Phase) → may_start q ≡ ok u → Quiet q s.loading s.timers → s.timers ≡ []
    idle new m q = q
    idle starting m q = q
    idle stopped m q = q
    idle started m q = absurd (let bad : ⊥ = cc in bad)

pub finish_start-InStep :
    (f : Faults) (now : ℕ) (s : ScheduleRuntime) → InStep s → InStep (finish_start f now s).1
unfolding finish_start
finish_start-InStep f now s h =
    if_each (λ (p : Result ScheduleError (Unit {0}) × ScheduleRuntime). InStep p.1) s.loading _ _
      (λ loads.
        start_loaded-InStep f now (record s { loading = false }) (replaced f.store_fails s.stored)
          refl refl (unloaded s.phase s.loading s.timers loads h.quiet))
      (λ idle. h)

-- ===== src/Schedules/Runtime/Laws.antt =====
-- What the operations of the runtime keep: memory and store agree, and every timer has its job.
use qq_bot_v.Prelude.{
  ℕ, ◌≡◌, refl, sym, ap, ◌∙◌, Bool, true, false, not, some, List, [], ◌∷◌, ◌++◌, map, nat_eq,
  text_eq, Text, delete, All, if_each,
}
use mathlib.Core.Path.{subst}
use qq_bot_v.Schedules.Model.{ScheduleJob, trimmed, are_valid}
use qq_bot_v.Schedules.Model.Laws.{
  map-trimmed_self, validate_schedule_jobs-some, are_valid-unique, unique-last,
}
use qq_bot_v.Schedules.Runtime.{
  Phase, started, ArmedTimer, ScheduleRuntime, without, put_job, replaced, clear_job_timer,
  set_timer, is_started, stopped_now, settle, arm_job,
}
use qq_bot_v.Schedules.Runtime.Timers.{
  has_job, IsLive, delete-IsLive, insert-IsLive, has_job-put_job, has_job-without, put_job-append,
}

-- While the runtime is started, the store has its jobs, up to the trimming of their texts, and
-- they are valid: at most 20, with different ids and names.
abbrev pub Agreed : Phase → List ScheduleJob → List ScheduleJob → Type 0
Agreed started stored jobs =
    (map trimmed stored ≡ map trimmed jobs) × (are_valid (map trimmed jobs) ≡ true)
Agreed _ stored jobs = Unit

-- No load is under way in a started runtime, and no timer is set in any other.
abbrev pub Quiet : Phase → Bool → List (Text × ArmedTimer) → Type 0
Quiet started loading timers = loading ≡ false
Quiet _ loading timers = timers ≡ []

pub record InStep (s : ScheduleRuntime) : Type 0 where
  pub agreed : Agreed s.phase s.stored s.jobs
  pub live : All (IsLive s.jobs) s.timers
  pub quiet : Quiet s.phase s.loading s.timers

pub stopped_now-InStep : (s : ScheduleRuntime) → InStep (stopped_now s)
stopped_now-InStep s = record { agreed = tt; live = tt; quiet = refl }

pub settle-InStep :
    (stops : Bool) (s : ScheduleRuntime) → (stops ≡ false → InStep s) → InStep (settle stops s)
settle-InStep stops s h = if_each InStep stops (stopped_now s) s (λ stop. stopped_now-InStep s) h

pub replaced-some :
    (fails : Bool) (js saved : List ScheduleJob)
    → replaced fails js ≡ some saved
    → (saved ≡ map trimmed js) × (are_valid saved ≡ true)
replaced-some true js saved h = absurd (let bad : ⊥ = cc in bad)
replaced-some false js saved h = validate_schedule_jobs-some js saved h

-- What the store keeps agrees with the jobs that it was given.
pub replaced-Agreed :
    (fails : Bool) (js saved : List ScheduleJob)
    → replaced fails js ≡ some saved
    → Agreed started saved js
replaced-Agreed fails js saved h =
    let (e, valid) = replaced-some fails js saved h in
    (ap (map trimmed) e ∙ map-trimmed_self js, subst (λ t. are_valid t ≡ true) e valid)

-- A started runtime whose timers are live once those of the id are cleared.
pub record Started (id : Text) (s : ScheduleRuntime) : Type 0 where
  pub begun : s.phase ≡ started
  pub agrees : Agreed started s.stored s.jobs
  pub others : All (IsLive s.jobs) (delete id s.timers)
  pub loaded : s.loading ≡ false

InStep-of :
    (s : ScheduleRuntime) (timers : List (Text × ArmedTimer))
    → s.phase ≡ started
    → Agreed started s.stored s.jobs
    → All (IsLive s.jobs) timers
    → s.loading ≡ false
    → InStep (record s { timers = timers })
InStep-of s timers b a l q = record {
  agreed = subst (λ p. Agreed p s.stored s.jobs) (sym b) a;
  live = l;
  quiet = subst (λ p. Quiet p s.loading timers) (sym b) q;
}

pub cleared-InStep :
    (id : Text) (s : ScheduleRuntime) → Started id s → InStep (clear_job_timer id s)
cleared-InStep id s h = InStep-of s (delete id s.timers) h.begun h.agrees h.others h.loaded

pub set_timer-InStep :
    (id : Text) (delay at : ℕ) (s : ScheduleRuntime)
    → Started id s
    → has_job s.jobs id at ≡ true
    → InStep (set_timer id delay at (clear_job_timer id s))
set_timer-InStep id delay at s h there =
    let timer : ArmedTimer = record { delay = delay; expected_at = at } in
    InStep-of s _ h.begun h.agrees
      (insert-IsLive s.jobs id timer (delete id s.timers) there h.others) h.loaded

pub arm_job-InStep :
    (fails : Bool) (now : ℕ) (j : ScheduleJob) (s : ScheduleRuntime)
    → Started j.id s
    → has_job s.jobs j.id j.at ≡ true
    → InStep (arm_job fails now j s).1
arm_job-InStep fails now j s h there =
    if_each (λ (p : Bool × ScheduleRuntime). InStep p.1) (not (is_started s.phase)) _ _
      (λ idle. cleared-InStep j.id s h)
      (λ on.
        if_each (λ (p : Bool × ScheduleRuntime). InStep p.1) fails _ _
          (λ failed. cleared-InStep j.id s h) (λ works. set_timer-InStep j.id _ j.at s h there))

-- A started runtime that is sound is one for every id.
pub InStep-Started : (id : Text) (s : ScheduleRuntime) → s.phase ≡ started → InStep s → Started id s
InStep-Started id s b h = record {
  begun = b;
  agrees = subst (λ p. Agreed p s.stored s.jobs) b h.agreed;
  others = delete-IsLive s.jobs s.jobs id s.timers (λ i at other there. there) h.live;
  loaded = subst (λ p. Quiet p s.loading s.timers) b h.quiet;
}

-- A job that is put behind the others, where the store keeps them all.
pub put_job-Started :
    (fails : Bool) (j : ScheduleJob) (s : ScheduleRuntime) (saved : List ScheduleJob)
    → s.phase ≡ started
    → InStep s
    → replaced fails (s.jobs ++ j ∷ []) ≡ some saved
    → Started j.id (record s { stored = saved; jobs = put_job j s.jobs })
put_job-Started fails j s saved b h kept =
    let (same, valid) = replaced-Agreed fails (s.jobs ++ j ∷ []) saved kept in
    let (distinct, _) = are_valid-unique (map trimmed (s.jobs ++ j ∷ [])) valid in
    let put = put_job-append j s.jobs (unique-last s.jobs j distinct) in
    record {
      begun = b;
      agrees = subst (Agreed started saved) (sym put) (same, valid);
      others =
          delete-IsLive s.jobs (put_job j s.jobs) j.id s.timers (has_job-put_job j s.jobs) h.live;
      loaded = subst (λ p. Quiet p s.loading s.timers) b h.quiet;
    }

-- A job that is taken out, where the store keeps the others.
pub without-Started :
    (fails : Bool) (id : Text) (s : ScheduleRuntime) (saved : List ScheduleJob)
    → s.phase ≡ started
    → InStep s
    → replaced fails (without id s.jobs) ≡ some saved
    → Started id (record s { stored = saved; jobs = without id s.jobs })
without-Started fails id s saved b h kept = record {
  begun = b;
  agrees = replaced-Agreed fails (without id s.jobs) saved kept;
  others = delete-IsLive s.jobs (without id s.jobs) id s.timers (has_job-without id s.jobs) h.live;
  loaded = subst (λ p. Quiet p s.loading s.timers) b h.quiet;
}

-- ===== src/Tasks/Scheduler.antt =====
-- The scheduler of tasks in lanes (src/agent/task-scheduler.ts: createTaskScheduler). A job is
-- known by its number, which also stands for its promise; a key that is missing or empty is the
-- empty text. Each lane also holds its jobs that have started and not ended, which the source
-- keeps in the continuations of their promises. A started task ends by an operation of its own.
pub mod Laws
pub mod Ending
pub mod Exclusion
pub mod Busy
pub mod Progress
use qq_bot_v.Prelude.{
  ℕ, zero, suc, ◌+◌, ◌-◌, Bool, true, false, ◌&&◌, ◌||◌, not, Option, none, some, List, [], ◌∷◌,
  ◌++◌, ltb, leb, ◌==◌, nat_eq, text_eq, Text, text, length, keep, find, lookup, insert, delete,
  has, is_empty, if◌then◌else◌, Result, ok, err,
}

pub record Job : Type 0 where
  pub id : ℕ
  pub resource_key : Text
  pub dedupe_key : Text

pub record Lane : Type 0 where
  pub name : Text
  pub concurrency : ℕ
  pub active : ℕ
  pub queue : List Job
  pub running : List Job

pub record Scheduler : Type 0 where
  pub lanes : List Lane
  pub active_resources : List Text
  pub deduped : List (Text × ℕ)
  pub drain_waiters : List ℕ

pub data SchedulerError : Type 0 where
  invalid_lane : Text → SchedulerError
  unknown_lane : Text → SchedulerError

abbrev lanes_from : List (Text × ℕ) → Result SchedulerError (List Lane)
lanes_from [] = ok []
lanes_from ((name, concurrency) ∷ rest) =
    let more = lanes_from rest in
    if is_empty name || ltb concurrency 1 then err (invalid_lane name) else elim more [
      | err e ↦ err e
      | ok lanes ↦ ok (
          record { name = name; concurrency = concurrency; active = 0; queue = []; running = [] }
          ∷ lanes)
    ]

abbrev scheduler_of : Result SchedulerError (List Lane) → Result SchedulerError Scheduler
scheduler_of (err e) = err e
scheduler_of (ok lanes) =
    ok (record { lanes = lanes; active_resources = []; deduped = []; drain_waiters = [] })

-- The keys of the configuration differ, as those of an object do.
unfoldable pub create_task_scheduler : List (Text × ℕ) → Result SchedulerError Scheduler
create_task_scheduler config = scheduler_of (lanes_from config)

-- `AGENT_TASK_LANES`.
abbrev pub agent_task_lanes : List (Text × ℕ)
agent_task_lanes =
    (text "maintenance", 1) ∷ (text "network", 3) ∷ (text "media-description", 2) ∷ []

unfoldable pub is_idle : List Lane → Bool
is_idle [] = true
is_idle (l ∷ ls) = if ltb 0 l.active || ltb 0 (length l.queue) then false else is_idle ls

abbrev pub is_free : List Text → Job → Bool
is_free resources j = is_empty j.resource_key || not (has j.resource_key resources)

-- `findIndex` and `splice`: the first job that can start, and the others.
abbrev pub take_free : List Text → List Job → Option (Job × List Job)
take_free resources [] = none
take_free resources (j ∷ js) =
    if is_free resources j
    then some (j, js)
    else elim (take_free resources js) [ none ↦ none | some p ↦ some (p.0, j ∷ p.1) ]

abbrev pub hold : Job → List Text → List Text
hold j resources = if is_empty j.resource_key then resources else j.resource_key ∷ resources

abbrev pub started : Lane → Job → List Job → Lane
started l j queue = record l { active = l.active + 1; queue = queue; running = j ∷ l.running }

-- Each round starts a job of the queue, so its length is fuel enough.
unfoldable pub pump_lane : ℕ → Lane → List Text → Lane × List Text
pump_lane zero l resources = (l, resources)
pump_lane (suc fuel) l resources = elim (ltb l.active l.concurrency) [
  | false ↦ (l, resources)
  | true ↦ elim (take_free resources l.queue) [
    | none ↦ (l, resources)
    | some p ↦ pump_lane fuel (started l p.0 p.1) (hold p.0 resources)
  ]
]

unfoldable pub pump_lanes : List Lane → List Text → List Lane × List Text
unfolding pump_lane
pump_lanes [] resources = ([], resources)
pump_lanes (l ∷ ls) resources =
    let first = pump_lane (length l.queue) l resources in
    let rest = pump_lanes ls first.1 in (first.0 ∷ rest.0, rest.1)

-- With the waiters for a drain that are resolved.
unfoldable pub pump_all : Scheduler → Scheduler × List ℕ
unfolding pump_lanes is_idle
pump_all s =
    let pumped = pump_lanes s.lanes s.active_resources in
    let idle = is_idle pumped.0 in
    (
      record s {
        lanes = pumped.0;
        active_resources = pumped.1;
        drain_waiters = if idle then [] else s.drain_waiters;
      },
      if idle then s.drain_waiters else [],
    )

abbrev pub push_job : Text → Job → List Lane → List Lane
push_job name j [] = []
push_job name j (l ∷ ls) =
    if l.name == name then record l { queue = l.queue ++ j ∷ [] } ∷ ls else l ∷ push_job name j ls

abbrev is_known : Option Lane → Bool
is_known none = false
is_known (some l) = true

abbrev existing : Scheduler → Job → Option ℕ
existing s j = if is_empty j.dedupe_key then none else lookup j.dedupe_key s.deduped

abbrev pub remember : Job → List (Text × ℕ) → List (Text × ℕ)
remember j deduped = if is_empty j.dedupe_key then deduped else insert j.dedupe_key j.id deduped

abbrev schedule_new : Scheduler → Text → Job → Option ℕ → ℕ × Scheduler
schedule_new s name j (some id) = (id, s)
schedule_new s name j none = (
  j.id,
  (pump_all (record s { lanes = push_job name j s.lanes; deduped = remember j s.deduped })).0,
)

-- The promise, and the scheduler.
unfoldable pub schedule : Scheduler → Text → Job → Result SchedulerError (ℕ × Scheduler)
schedule s name j =
    if is_known (find (λ l. l.name == name) s.lanes)
    then ok (schedule_new s name j (existing s j))
    else err (unknown_lane name)

-- A job of the lane that has started, and the others.
abbrev pub take_running : ℕ → List Job → Option (Job × List Job)
take_running id [] = none
take_running id (j ∷ js) =
    if j.id == id
    then some (j, js)
    else elim (take_running id js) [ none ↦ none | some p ↦ some (p.0, j ∷ p.1) ]

abbrev pub release : Job → List Text → List Text
release j resources =
    if is_empty j.resource_key then resources else keep (λ k. not (k == j.resource_key)) resources

abbrev pub ended_lane : Lane → List Job → Lane
ended_lane l running = record l { active = l.active - 1; running = running }

-- The job that ends, and the lanes after it.
abbrev pub end_job : Text → ℕ → List Lane → Option (Job × List Lane)
end_job name id [] = none
end_job name id (l ∷ ls) =
    let rest = end_job name id ls in
    if l.name == name
    then elim (take_running id l.running) [
      | none ↦ none
      | some p ↦ some (p.0, ended_lane l p.1 ∷ ls)
    ]
    else elim rest [ none ↦ none | some p ↦ some (p.0, l ∷ p.1) ]

abbrev forget : Job → List (Text × ℕ) → List (Text × ℕ)
forget j deduped = if is_empty j.dedupe_key then deduped else delete j.dedupe_key deduped

abbrev ended : Scheduler → Option (Job × List Lane) → Scheduler × List ℕ
ended s none = (s, [])
ended s (some p) = pump_all (record s {
  lanes = p.1;
  active_resources = release p.0 s.active_resources;
  deduped = forget p.0 s.deduped;
})

-- The `finally` of a job: nothing happens for a job that is not running.
unfoldable pub finish_job : Scheduler → Text → ℕ → Scheduler × List ℕ
finish_job s name id = ended s (end_job name id s.lanes)

-- `true` where there is nothing to wait for.
unfoldable pub drain : Scheduler → ℕ → Bool × Scheduler
unfolding is_idle
drain s waiter =
    if is_idle s.lanes
    then (true, s)
    else (false, record s { drain_waiters = s.drain_waiters ++ waiter ∷ [] })

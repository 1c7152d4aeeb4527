-- ===== src/Tasks/Registry.antt =====
-- The registry of background tasks (src/agent/background-task-registry.ts: createTaskRegistry and
-- the restart in createPersistentTaskRegistry). A `Date` is its time in milliseconds, a new id
-- comes from `id_factory` and the number of ids made before, and `persisted` is what the last
-- `persistNow` has written.
pub mod Laws
pub mod Restart
pub mod Fresh
use qq_bot_v.Prelude.{
  ℕ, zero, suc, ◌+◌, Bool, true, false, ◌&&◌, not, Option, none, some, List, [], ◌∷◌, map, ltb, leb,
  nat_eq, text_eq, ◌==◌, length, take, keep, lookup, insert, Text, text, if◌then◌else◌, Result, ok,
  err, ◌>>=◌, ◌>>◌, guard,
}
use qq_bot_v.Prelude.Values.{Value, max_safe_integer}

pub data BackgroundTaskStatus : Type 0 where
  running completed failed interrupted cancelled : BackgroundTaskStatus

pub record BackgroundTask : Type 0 where
  pub id : Text
  pub tool_name : Text
  pub description : Text
  pub started_at : ℕ
  pub updated_at : ℕ
  pub completed_at : Option ℕ
  pub status : BackgroundTaskStatus
  pub attempt : ℕ
  pub result_summary : Option Text
  pub result_data : Option Value
  pub error : Option Text
  pub recovery : Option (Text × Value)
  pub restored_from_disk : Bool

pub record RegistryOptions : Type 0 where
  pub completed_ttl_ms : ℕ
  pub recent_limit : ℕ
  pub max_active_tasks : ℕ

abbrev pub Tasks : Type 0
Tasks = List (Text × BackgroundTask)

pub record Registry : Type 0 where
  pub options : RegistryOptions
  pub tasks : Tasks
  pub persisted : Tasks
  pub ids_made : ℕ

pub data RegistryError : Type 0 where
  invalid_max_active_tasks : RegistryError
  background_task_limit : ℕ → ℕ → RegistryError
  no_fresh_id : RegistryError

abbrev pub is_running : BackgroundTask → Bool
is_running t = elim t.status [ running ↦ true | _ ↦ false ]

abbrev pub tasks_of : Tasks → List BackgroundTask
tasks_of ts = map (λ p. p.1) ts

-- The ids of the initial tasks, each with its task; a later one with the same id replaces.
abbrev tasks_by_id : Tasks → List BackgroundTask → Tasks
tasks_by_id ts [] = ts
tasks_by_id ts (t ∷ rest) = tasks_by_id (insert t.id t ts) rest

unfoldable pub create_task_registry :
    RegistryOptions → List BackgroundTask → Result RegistryError Registry
create_task_registry options initial =
    if ltb 0 options.max_active_tasks && leb options.max_active_tasks max_safe_integer
    then ok
        (record { options = options; tasks = tasks_by_id [] initial; persisted = []; ids_made = 0 })
    else err invalid_max_active_tasks

unfoldable pub persist_now : Registry → Registry
persist_now r = record r { persisted = r.tasks }

abbrev is_expired : ℕ → ℕ → Option ℕ → Bool
is_expired ttl reference none = false
is_expired ttl reference (some at) = ltb (at + ttl) reference

abbrev pub stays : ℕ → ℕ → BackgroundTask → Bool
stays ttl reference t = if is_running t then true else not (is_expired ttl reference t.completed_at)

-- What `cleanup` leaves: the tasks that run or have not been over for longer than their time.
unfoldable pub cleanup : Registry → ℕ → Registry
cleanup r reference = record r {
  tasks = keep (λ p. stays r.options.completed_ttl_ms reference p.1) r.tasks;
}

abbrev pub active_count : Tasks → ℕ
active_count ts = length (keep is_running (tasks_of ts))

abbrev pub is_present : Option BackgroundTask → Bool
is_present none = false
is_present (some t) = true

abbrev pub finish :
    (BackgroundTask → BackgroundTask) → BackgroundTaskStatus → ℕ → BackgroundTask → BackgroundTask
finish update status now t =
    update (record t { status = status; updated_at = now; completed_at = some now })

abbrev transition_task :
    Registry
    → Text
    → BackgroundTaskStatus
    → (BackgroundTask → BackgroundTask)
    → ℕ
    → Option BackgroundTask
    → Bool × Registry
transition_task r id status update now none = (false, r)
transition_task r id status update now (some t) =
    if is_running t
    then (
      true,
      persist_now
          (cleanup (record r { tasks = insert id (finish update status now t) r.tasks }) now),
    )
    else (false, r)

unfoldable pub transition_terminal :
    Registry → Text → BackgroundTaskStatus → (BackgroundTask → BackgroundTask) → ℕ → Bool × Registry
transition_terminal r id status update now =
    transition_task r id status update now (lookup id r.tasks)

unfoldable pub complete : Registry → Text → Text → Option Value → ℕ → Registry
complete r id summary data_ now =
    (transition_terminal r id completed
      (λ t. record t { result_summary = some summary; result_data = data_ }) now).1

unfoldable pub fail : Registry → Text → Text → ℕ → Registry
fail r id error now = (transition_terminal r id failed (λ t. record t { error = some error }) now).1

unfoldable pub cancel : Registry → Text → Option Text → ℕ → Bool × Registry
cancel r id none now =
    transition_terminal r id cancelled (λ t. record t { error = some (text "cancelled_by_user") })
      now
cancel r id (some reason) now =
    transition_terminal r id cancelled (λ t. record t { error = some reason }) now

unfoldable pub get : Registry → Text → Option BackgroundTask
get r id = lookup id r.tasks

abbrev pub new_task : Text → Text → Text → ℕ → BackgroundTask
new_task id tool_name description now = record {
  id = id;
  tool_name = tool_name;
  description = description;
  started_at = now;
  updated_at = now;
  completed_at = none;
  status = running;
  attempt = 1;
  result_summary = none;
  result_data = none;
  error = none;
  recovery = none;
  restored_from_disk = false;
}

module _ (id_factory : ℕ → Text) where
  -- `while (tasks.has(id)) id = idFactory()`: the first free id and the number of ids made then.
  fresh_id : ℕ → Tasks → ℕ → Option (Text × ℕ)
  fresh_id zero ts made = none
  fresh_id (suc fuel) ts made =
      let rest = fresh_id fuel ts (made + 1) in
      if is_present (lookup (id_factory made) ts) then rest else some (id_factory made, made + 1)

  abbrev register_fresh :
      Registry
      → Text
      → Text
      → ℕ
      → Option (Text × ℕ)
      → Result RegistryError (BackgroundTask × Registry)
  register_fresh r tool_name description now none = err no_fresh_id
  register_fresh r tool_name description now (some (id, made)) =
      let t = new_task id tool_name description now in
      ok (t, persist_now (record r { tasks = insert id t r.tasks; ids_made = made }))

  -- Among one id more than there are tasks one is free, so that is fuel enough.
  unfoldable pub register :
      Registry → Text → Text → ℕ → Result RegistryError (BackgroundTask × Registry)
  unfolding fresh_id
  register r tool_name description now =
      let cleaned = cleanup r now in
      let active = active_count cleaned.tasks in
      if leb r.options.max_active_tasks active
      then err (background_task_limit r.options.max_active_tasks active)
      else register_fresh cleaned tool_name description now
          (fresh_id (suc (length cleaned.tasks)) cleaned.tasks cleaned.ids_made)

-- `Array.prototype.sort` is stable: an element goes behind those that it is not less than.
abbrev insert_sorted :
    (BackgroundTask → BackgroundTask → Bool)
    → BackgroundTask
    → List BackgroundTask
    → List BackgroundTask
insert_sorted after t [] = t ∷ []
insert_sorted after t (u ∷ us) = if after t u then u ∷ insert_sorted after t us else t ∷ u ∷ us

abbrev sort_from :
    (BackgroundTask → BackgroundTask → Bool)
    → List BackgroundTask
    → List BackgroundTask
    → List BackgroundTask
sort_from after done [] = done
sort_from after done (t ∷ ts) = sort_from after (insert_sorted after t done) ts

abbrev pub completed_or_zero : BackgroundTask → ℕ
completed_or_zero t = elim t.completed_at [ none ↦ 0 | some at ↦ at ]

unfoldable pub list_running : Registry → List BackgroundTask
list_running r =
    sort_from (λ t u. leb u.started_at t.started_at) [] (keep is_running (tasks_of r.tasks))

-- The number of tasks tells whether the cleanup has changed anything.
unfoldable pub list_recent : Registry → ℕ → List BackgroundTask × Registry
list_recent r now =
    let cleaned = cleanup r now in
    let after =
      if ltb (length cleaned.tasks) (length r.tasks) then persist_now cleaned else cleaned in
    (
      take r.options.recent_limit (
          sort_from (λ t u. leb (completed_or_zero t) (completed_or_zero u)) []
            (keep (λ t. not (is_running t)) (tasks_of after.tasks))),
      after,
    )

abbrev pub interrupt : ℕ → BackgroundTask → BackgroundTask
interrupt at t =
    if is_running t
    then record t {
      status = interrupted;
      updated_at = at;
      completed_at = some at;
      error = some (text "process_restarted_before_completion");
    }
    else t

-- The registry after a restart and the tasks that it interrupted.
unfoldable pub create_persistent_task_registry :
    RegistryOptions
    → List BackgroundTask
    → ℕ
    → Result RegistryError (Registry × List BackgroundTask)
create_persistent_task_registry options stored at =
    let gone = map (interrupt at) (keep is_running stored) in
    create_task_registry options (map (interrupt at) stored) >>= λ r.
    ok (if ltb 0 (length gone) then persist_now r else r, gone)

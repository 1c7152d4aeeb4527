-- ===== src/Tasks/Registry/Laws.antt =====
-- How many tasks run, and what stays of a task that is over.
use qq_bot_v.Prelude.{
  ℕ, ◌+◌, ◌≤◌, ◌<◌, ◌≡◌, refl, inl, inr, Bool, false, Option, none, some, List, [], ◌∷◌, ltb, leb,
  ◌==◌, nat_eq, text_eq, length, keep, lookup, insert, Text, text, arith, Bool-cases, Result, ok,
  err,
}
use qq_bot_v.Prelude.Values.{Value}
use qq_bot_v.Tasks.Registry.{
  BackgroundTask, BackgroundTaskStatus, completed, failed, cancelled, Registry, RegistryError,
  Tasks, tasks_of, is_running, active_count, stays, finish, cleanup, persist_now, transition_task,
  transition_terminal, complete, fail, cancel, list_recent, new_task, register_fresh, register,
}

pub active_count-keep :
    (p : Text × BackgroundTask → Bool) (ts : Tasks) → active_count (keep p ts) ≤ active_count ts
active_count-keep p [] = omega arith
active_count-keep p ((k, t) ∷ ts) = elim (Bool-cases (p (k, t))) [
  | inl kept ↦ rw kept (elim (Bool-cases (is_running t)) [
    | inl r ↦ rw r (omega (arith, active_count-keep p ts))
    | inr r ↦ rw r (active_count-keep p ts)
  ])
  | inr dropped ↦ rw dropped (elim (Bool-cases (is_running t)) [
    | inl r ↦ rw r (omega (arith, active_count-keep p ts))
    | inr r ↦ rw r (active_count-keep p ts)
  ])
]

pub active_count-insert :
    (id : Text) (t : BackgroundTask) (ts : Tasks)
    → active_count (insert id t ts) ≤ active_count ts + 1
active_count-insert id t [] = elim (Bool-cases (is_running t)) [
  | inl r ↦ rw r (omega arith)
  | inr r ↦ rw r (omega arith)
]
active_count-insert id t ((k, u) ∷ ts) = elim (Bool-cases (k == id)) [
  | inl same ↦ rw same (elim (Bool-cases (is_running u)) [
    | inl r ↦ rw r (more t ts (omega arith))
    | inr r ↦ rw r (more t ts (omega arith))
  ])
  | inr other ↦ rw other (elim (Bool-cases (is_running u)) [
    | inl r ↦ rw r (omega (arith, active_count-insert id t ts))
    | inr r ↦ rw r (active_count-insert id t ts)
  ])
]
  where
    more :
        {n : ℕ} (t : BackgroundTask) (ts : Tasks)
        → active_count ts + 1 ≤ n
        → length (keep is_running (t ∷ tasks_of ts)) ≤ n
    more t ts le = elim (Bool-cases (is_running t)) [
      | inl r ↦ rw r (omega arith)
      | inr r ↦ rw r (omega arith)
    ]

pub active_count-insert_over :
    (id : Text) (t : BackgroundTask) (ts : Tasks)
    → is_running t ≡ false
    → active_count (insert id t ts) ≤ active_count ts
active_count-insert_over id t [] over = rw over (omega arith)
active_count-insert_over id t ((k, u) ∷ ts) over = elim (Bool-cases (k == id)) [
  | inl same ↦
      rw (same, over)
        (elim (Bool-cases (is_running u)) [
          | inl r ↦ rw r (omega arith)
          | inr r ↦ rw r (omega arith)
        ])
  | inr other ↦ rw other (elim (Bool-cases (is_running u)) [
    | inl r ↦ rw r (omega (arith, active_count-insert_over id t ts over))
    | inr r ↦ rw r (active_count-insert_over id t ts over)
  ])
]

-- The operations on a registry, each with the time at which it happens.
pub data Operation : Type 0 where
  registered : Text → Text → ℕ → Operation
  completed_with : Text → Text → Option Value → ℕ → Operation
  failed_with : Text → Text → ℕ → Operation
  cancelled_for : Text → Option Text → ℕ → Operation
  listed_recent : ℕ → Operation

-- What a refused registration leaves: the registry that was cleaned up.
abbrev pub registry_or : Registry → Result RegistryError (BackgroundTask × Registry) → Registry
registry_or r (ok (t, r')) = r'
registry_or r (err e) = r

-- Each transition keeps or drops a task, or replaces one by a task that is over.
transition-active_count :
    (r : Registry) (id : Text) (status : BackgroundTaskStatus)
    (update : BackgroundTask → BackgroundTask) (now : ℕ)
    → ((t : BackgroundTask) → is_running (finish update status now t) ≡ false)
    → active_count (transition_terminal r id status update now).1.tasks ≤ active_count r.tasks
unfolding transition_terminal cleanup persist_now
transition-active_count r id status update now over = by_task (lookup id r.tasks)
  where
    by_task :
        (o : Option BackgroundTask)
        → active_count (transition_task r id status update now o).1.tasks ≤ active_count r.tasks
    by_task none = omega arith
    by_task (some t) = elim (Bool-cases (is_running t)) [
      | inl runs ↦ rw runs (
          let a =
            active_count-keep (λ p. stays r.options.completed_ttl_ms now p.1)
              (insert id (finish update status now t) r.tasks) in
          let b = active_count-insert_over id (finish update status now t) r.tasks (over t) in
          omega arith)
      | inr is_over ↦ rw is_over (omega arith)
    ]

transition-options :
    (r : Registry) (id : Text) (status : BackgroundTaskStatus)
    (update : BackgroundTask → BackgroundTask) (now : ℕ)
    → (transition_terminal r id status update now).1.options ≡ r.options
unfolding transition_terminal cleanup persist_now
transition-options r id status update now = by_task (lookup id r.tasks)
  where
    by_task :
        (o : Option BackgroundTask)
        → (transition_task r id status update now o).1.options ≡ r.options
    by_task none = refl
    by_task (some t) = elim (Bool-cases (is_running t)) [
      | inl runs ↦ rw runs refl
      | inr is_over ↦ rw is_over refl
    ]

module _ (id_factory : ℕ → Text) where
  unfoldable pub step : Operation → Registry → Registry
  step (registered tool_name description now) r =
      registry_or (cleanup r now) (register id_factory r tool_name description now)
  step (completed_with id summary result now) r = complete r id summary result now
  step (failed_with id error now) r = fail r id error now
  step (cancelled_for id reason now) r = (cancel r id reason now).1
  step (listed_recent now) r = (list_recent r now).1

  abbrev pub run : List Operation → Registry → Registry
  run [] r = r
  run (op ∷ ops) r = run ops (step op r)

  abbrev pub Bounded : Registry → Type 0
  Bounded r = active_count r.tasks ≤ r.options.max_active_tasks

  register_fresh-Bounded :
      (r : Registry) (tool_name description : Text) (now : ℕ) (o : Option (Text × ℕ))
      → active_count r.tasks < r.options.max_active_tasks
      → Bounded (registry_or r (register_fresh id_factory r tool_name description now o))
  unfolding persist_now
  register_fresh-Bounded r tool_name description now none lt = omega arith
  register_fresh-Bounded r tool_name description now (some (id, made)) lt =
      let a = active_count-insert id (new_task id tool_name description now) r.tasks in omega arith

  register-Bounded :
      (r : Registry) (tool_name description : Text) (now : ℕ)
      → Bounded (cleanup r now)
      → Bounded (registry_or (cleanup r now) (register id_factory r tool_name description now))
  unfolding register cleanup
  register-Bounded r tool_name description now h =
      elim (Bool-cases (leb r.options.max_active_tasks (active_count (cleanup r now).tasks))) [
        | inl refused ↦ rw (cleanup, refused) h
        | inr room ↦
            rw (cleanup, room)
              (register_fresh-Bounded (cleanup r now) tool_name description now _
                (ground (arith, room)))
      ]

  step-Bounded : (op : Operation) (r : Registry) → Bounded r → Bounded (step op r)
  unfolding step complete fail cancel list_recent cleanup persist_now
  step-Bounded (registered tool_name description now) r h =
      register-Bounded r tool_name description now (
        let a = active_count-keep (λ p. stays r.options.completed_ttl_ms now p.1) r.tasks in
        omega arith)
  step-Bounded (completed_with id summary result now) r h =
      let o =
        transition-options r id completed
          (λ t. record t { result_summary = some summary; result_data = result }) now in
      let a =
        transition-active_count r id completed
          (λ t. record t { result_summary = some summary; result_data = result }) now (λ t. refl) in
      rw o (omega arith)
  step-Bounded (failed_with id error now) r h =
      let o = transition-options r id failed (λ t. record t { error = some error }) now in
      let a =
        transition-active_count r id failed (λ t. record t { error = some error }) now
          (λ t. refl) in
      rw o (omega arith)
  step-Bounded (cancelled_for id none now) r h =
      let o =
        transition-options r id cancelled
          (λ t. record t { error = some (text "cancelled_by_user") }) now in
      let a =
        transition-active_count r id cancelled
          (λ t. record t { error = some (text "cancelled_by_user") }) now (λ t. refl) in
      rw o (omega arith)
  step-Bounded (cancelled_for id (some reason) now) r h =
      let o = transition-options r id cancelled (λ t. record t { error = some reason }) now in
      let a =
        transition-active_count r id cancelled (λ t. record t { error = some reason }) now
          (λ t. refl) in
      rw o (omega arith)
  step-Bounded (listed_recent now) r h =
      let a = active_count-keep (λ p. stays r.options.completed_ttl_ms now p.1) r.tasks in
      elim (Bool-cases (ltb (length (cleanup r now).tasks) (length r.tasks))) [
        | inl changed ↦ rw (cleanup, changed) (omega arith)
        | inr same ↦ rw (cleanup, same) (omega arith)
      ]

  pub run-Bounded : (ops : List Operation) (r : Registry) → Bounded r → Bounded (run ops r)
  run-Bounded [] r h = h
  run-Bounded (op ∷ ops) r h = run-Bounded ops (step op r) (step-Bounded op r h)

-- ===== src/Tasks/Registry/Restart.antt =====
-- What a restart makes of the stored tasks, and the limit on those that run after it.
use qq_bot_v.Prelude.{
  ℕ, ◌≤◌, ◌≡◌, refl, ap, sym, ◌∙◌, ◌⊎◌, inl, inr, Bool, some, any, lookup, lookup-insert, text,
  text_beq_iff, ◌++◌, ◌==◌, true, false, ◌&&◌, List, [], ◌∷◌, map, ltb, leb, length, keep, insert,
  text_eq, Text, arith, if◌then◌else◌, Bool-cases, Result, ok, err, >>=-eq-ok, ok-injective,
}
use mathlib.Core.Path.{subst}
use qq_bot_v.Prelude.Values.{max_safe_integer}
use qq_bot_v.Tasks.Registry.{
  BackgroundTask, interrupted, RegistryOptions, Registry, RegistryError, invalid_max_active_tasks,
  Tasks, is_running, active_count, persist_now, interrupt, create_task_registry,
  create_persistent_task_registry, tasks_by_id,
}
use qq_bot_v.Tasks.Registry.Laws.{active_count-insert_over, Operation, run, run-Bounded}

interrupt-over : (at : ℕ) (t : BackgroundTask) → is_running (interrupt at t) ≡ false
interrupt-over at t = elim (Bool-cases (is_running t)) [
  | inl runs ↦ rw runs refl
  | inr over ↦ rw over over
]

tasks_by_id-over :
    (at : ℕ) (stored : List BackgroundTask) (ts : Tasks)
    → active_count (tasks_by_id ts (map (interrupt at) stored)) ≤ active_count ts
tasks_by_id-over at [] ts = omega arith
tasks_by_id-over at (t ∷ stored) ts =
    let a =
      active_count-insert_over (interrupt at t).id (interrupt at t) ts (interrupt-over at t) in
    let b = tasks_by_id-over at stored (insert (interrupt at t).id (interrupt at t) ts) in
    omega arith

create-parts :
    (options : RegistryOptions) (initial : List BackgroundTask) (r : Registry)
    → create_task_registry options initial ≡ ok r
    → (r.tasks ≡ tasks_by_id [] initial) × (r.options ≡ options)
unfolding create_task_registry
create-parts options initial r h =
    elim (Bool-cases
      (ltb 0 options.max_active_tasks && leb options.max_active_tasks max_safe_integer)) [
        | inl valid ↦
            let q = ok-injective (rw valid at h) in
            (ap (λ r. r.tasks) (sym q), ap (λ r. r.options) (sym q))
        | inr invalid ↦ absurd (
            let h' : ◌≡◌ {A = Result RegistryError Registry} (err invalid_max_active_tasks) (ok r) =
              rw invalid at h in
            cc)
      ]

-- What a restart makes of a task: one that ran is interrupted, any other stays.
abbrev pub AfterRestart : ℕ → BackgroundTask → BackgroundTask → Type 0
AfterRestart at t u =
    ((is_running t ≡ false) × (u ≡ t))
    ⊎ ((is_running t ≡ true)
        × (u ≡ record t {
          status = interrupted;
          updated_at = at;
          completed_at = some at;
          error = some (text "process_restarted_before_completion");
        }))

-- The reported tasks are those that ran, each after the restart, in their order.
abbrev pub Reports : ℕ → List BackgroundTask → List BackgroundTask → Type 0
Reports at [] gone = gone ≡ []
Reports at (t ∷ stored) gone =
    ((is_running t ≡ false) × Reports at stored gone)
    ⊎ ((is_running t ≡ true)
        × ((u : BackgroundTask) × (rest : List BackgroundTask) × (gone ≡ u ∷ rest)
            × AfterRestart at t u
            × Reports at stored rest))

interrupt-AfterRestart : (at : ℕ) (t : BackgroundTask) → AfterRestart at t (interrupt at t)
interrupt-AfterRestart at t = elim (Bool-cases (is_running t)) [
  | inl runs ↦ inr (runs, rw runs refl)
  | inr over ↦ inl (over, rw over refl)
]

interrupted-Reports :
    (at : ℕ) (stored : List BackgroundTask)
    → Reports at stored (map (interrupt at) (keep is_running stored))
interrupted-Reports at [] = refl
interrupted-Reports at (t ∷ stored) = elim (Bool-cases (is_running t)) [
  | inl runs ↦ inr (
    runs,
    (
      interrupt at t,
      map (interrupt at) (keep is_running stored),
      ap (map (interrupt at))
          (let e : keep is_running (t ∷ stored) ≡ t ∷ keep is_running stored = rw runs refl in e),
      interrupt-AfterRestart at t,
      interrupted-Reports at stored,
    ),
  )
  | inr over ↦ inl (over, rw over (interrupted-Reports at stored))
]

interrupt-id : (at : ℕ) (t : BackgroundTask) → (interrupt at t).id ≡ t.id
interrupt-id at t = elim (Bool-cases (is_running t)) [
  | inl runs ↦ rw runs refl
  | inr over ↦ rw over refl
]

tasks_by_id-later :
    (at : ℕ) (id : Text) (after : List BackgroundTask) (ts : Tasks)
    → any (λ k. k.id == id) after ≡ false
    → lookup id (tasks_by_id ts (map (interrupt at) after)) ≡ lookup id ts
tasks_by_id-later at id [] ts h = refl
tasks_by_id-later at id (k ∷ after) ts h =
    let other : (k.id == id) ≡ false = ground (arith, h) in
    let u = interrupt at k in
    tasks_by_id-later at id after (insert u.id u ts) (ground (arith, h))
    ∙ lookup-insert id u.id u ts
    ∙ rw (interrupt-id at k, other) refl

tasks_by_id-found :
    (at : ℕ) (before : List BackgroundTask) (t : BackgroundTask) (after : List BackgroundTask)
    (ts : Tasks)
    → any (λ k. k.id == t.id) after ≡ false
    → lookup t.id (tasks_by_id ts (map (interrupt at) (before ++ t ∷ after)))
      ≡ some (interrupt at t)
tasks_by_id-found at [] t after ts h =
    let u = interrupt at t in
    tasks_by_id-later at t.id after (insert u.id u ts) h
    ∙ lookup-insert t.id u.id u ts
    ∙ rw (interrupt-id at t) (rw ((text_beq_iff t.id t.id).1 refl) refl)
tasks_by_id-found at (k ∷ before) t after ts h =
    tasks_by_id-found at before t after (insert (interrupt at k).id (interrupt at k) ts) h

written :
    (r : Registry) (b : Bool)
    → ((if b then persist_now r else r).tasks ≡ r.tasks)
      × ((if b then persist_now r else r).options ≡ r.options)
unfolding persist_now
written r true = (refl, refl)
written r false = (refl, refl)

-- What a created registry is made of, and which tasks are reported.
create_persistent-parts :
    (options : RegistryOptions) (stored : List BackgroundTask) (at : ℕ) (r : Registry)
    (gone : List BackgroundTask)
    → create_persistent_task_registry options stored at ≡ ok (r, gone)
    → (r.tasks ≡ tasks_by_id [] (map (interrupt at) stored))
      × (r.options ≡ options)
      × (map (interrupt at) (keep is_running stored) ≡ gone)
unfolding create_persistent_task_registry
create_persistent-parts options stored at r gone h =
    let (r0, created, h') =
      >>=-eq-ok (create_task_registry options (map (interrupt at) stored)) _ h in
    let (tasks, same_options) = create-parts options (map (interrupt at) stored) r0 created in
    let pair = ok-injective h' in
    let kept : (λ (r : Registry). (r.tasks ≡ r0.tasks) × (r.options ≡ r0.options)) r =
      subst (λ r. (r.tasks ≡ r0.tasks) × (r.options ≡ r0.options)) (ap (λ p. p.0) pair)
        (written r0 (ltb 0 (length (map (interrupt at) (keep is_running stored))))) in
    (kept.0 ∙ tasks, kept.1 ∙ same_options, ap (λ p. p.1) pair)

create_persistent-over :
    (options : RegistryOptions) (stored : List BackgroundTask) (at : ℕ) (r : Registry)
    (gone : List BackgroundTask)
    → create_persistent_task_registry options stored at ≡ ok (r, gone)
    → active_count r.tasks ≡ 0
create_persistent-over options stored at r gone h =
    let (tasks, _, _) = create_persistent-parts options stored at r gone h in
    let n : active_count r.tasks ≤ 0 =
      subst (λ ts. active_count ts ≤ 0) (sym tasks) (tasks_by_id-over at stored []) in
    omega arith

-- When the registry is created from stored tasks, none of its tasks runs and its options are those
-- given. The reported tasks are exactly the stored ones that ran, in their order, each with the
-- status of an interruption at the time of the restart. A stored task that is the last one with
-- its id is found in the registry: interrupted if it ran, and else as it was stored.
pub create_persistent_task_registry-over :
    (options : RegistryOptions) (before : List BackgroundTask) (t : BackgroundTask)
    (after : List BackgroundTask) (at : ℕ) (r : Registry) (gone : List BackgroundTask)
    → create_persistent_task_registry options (before ++ t ∷ after) at ≡ ok (r, gone)
    → any (λ k. k.id == t.id) after ≡ false
    → (active_count r.tasks ≡ 0)
      × (r.options ≡ options)
      × Reports at (before ++ t ∷ after) gone
      × ((u : BackgroundTask) × (lookup t.id r.tasks ≡ some u) × AfterRestart at t u)
create_persistent_task_registry-over options before t after at r gone h last =
    let stored = before ++ t ∷ after in
    let (tasks, same_options, reported) = create_persistent-parts options stored at r gone h in
    (
      create_persistent-over options stored at r gone h,
      same_options,
      subst (Reports at stored) reported (interrupted-Reports at stored),
      (
        interrupt at t,
        ap (lookup t.id) tasks ∙ tasks_by_id-found at before t after [] last,
        interrupt-AfterRestart at t,
      ),
    )

-- Whatever operations follow the creation of the registry from stored tasks, there are never more
-- running tasks than the limit.
pub run-active_count :
    (id_factory : ℕ → Text) (options : RegistryOptions) (stored : List BackgroundTask) (at : ℕ)
    (r : Registry) (gone : List BackgroundTask) (ops : List Operation)
    → create_persistent_task_registry options stored at ≡ ok (r, gone)
    → active_count (run id_factory ops r).tasks ≤ (run id_factory ops r).options.max_active_tasks
run-active_count id_factory options stored at r gone ops h =
    let over = create_persistent-over options stored at r gone h in
    run-Bounded id_factory ops r (omega arith)

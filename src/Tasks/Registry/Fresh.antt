-- ===== src/Tasks/Registry/Fresh.antt =====
-- The ids of new tasks: one is always found, and it is free.
use qq_bot_v.Prelude.{
  if◌then◌else◌, ℕ, zero, suc, ◌+◌, ◌≤◌, ◌<◌, ◌≡◌, refl, sym, ◌∙◌, inl, inr, true, false, Option,
  some, [], ◌∷◌, leb, ◌==◌, text_eq, text_beq_iff, length, lookup, insert, delete, lookup-insert,
  lookup-delete, Text, arith, Bool-cases, ok,
}
use mathlib.Core.Path.{subst}
use qq_bot_v.Tasks.Registry.{
  Registry, Tasks, active_count, is_present, cleanup, persist_now, new_task, fresh_id, register,
}

length-delete_le : (k : Text) (ts : Tasks) → length (delete k ts) ≤ length ts
length-delete_le k [] = omega arith
length-delete_le k ((j, t) ∷ ts) = ground (arith, length-delete_le k ts)

length-delete :
    (k : Text) (ts : Tasks) → is_present (lookup k ts) ≡ true → length (delete k ts) < length ts
length-delete k [] h = absurd (let h' : false ≡ true = h in cc)
length-delete k ((j, t) ∷ ts) h = elim (Bool-cases (j == k)) [
  | inl same ↦ rw same (omega (arith, length-delete_le k ts))
  | inr other ↦ rw other (omega (arith, length-delete k ts (rw other at h)))
]

module _ (id_factory : ℕ → Text) where
  abbrev pub Injective : Type 0
  Injective = (m n : ℕ) → id_factory m ≡ id_factory n → m ≡ n

  -- An entry of an id made before does not matter.
  fresh_id-delete :
      Injective
      → (fuel : ℕ) (ts : Tasks) (before made : ℕ) → before < made
      → fresh_id id_factory fuel (delete (id_factory before) ts) made
        ≡ fresh_id id_factory fuel ts made
  unfolding fresh_id
  fresh_id-delete inj zero ts before made lt = refl
  fresh_id-delete inj (suc fuel) ts before made lt =
      let other : (id_factory before == id_factory made) ≡ false =
        elim (Bool-cases (id_factory before == id_factory made)) [
          | inl same ↦ absurd (
              let e =
                inj before made ((text_beq_iff (id_factory before) (id_factory made)).0 same) in
              omega arith)
          | inr other ↦ other
        ] in
      let found : lookup (id_factory made) (delete (id_factory before) ts)
          ≡ lookup (id_factory made) ts =
        lookup-delete (id_factory made) (id_factory before) ts ∙ rw other refl in
      rw (found, fresh_id-delete inj fuel ts before (made + 1) (omega arith)) refl

  -- The loop ends: more ids than there are tasks are not all taken.
  fresh_id-found :
      Injective
      → (fuel : ℕ) (ts : Tasks) (made : ℕ) → length ts < fuel
      → (id : Text) × (next : ℕ) × (fresh_id id_factory fuel ts made ≡ some (id, next))
  unfolding fresh_id
  fresh_id-found inj zero ts made lt = absurd (omega arith)
  fresh_id-found inj (suc fuel) ts made lt =
      elim (Bool-cases (is_present (lookup (id_factory made) ts))) [
        | inr free ↦ (id_factory made, made + 1, rw free refl)
        | inl taken ↦
            let less = length-delete (id_factory made) ts taken in
            let (id, next, found) =
              fresh_id-found inj fuel (delete (id_factory made) ts) (made + 1) (omega arith) in
            (
              id,
              next,
              rw taken (sym (fresh_id-delete inj fuel ts made (made + 1) (omega arith)) ∙ found),
            )
      ]

  fresh_id-free :
      (fuel : ℕ) (ts : Tasks) (made : ℕ) (id : Text) (next : ℕ)
      → fresh_id id_factory fuel ts made ≡ some (id, next)
      → is_present (lookup id ts) ≡ false
  unfolding fresh_id
  fresh_id-free zero ts made id next h = cc
  fresh_id-free (suc fuel) ts made id next h =
      elim (Bool-cases (is_present (lookup (id_factory made) ts))) [
        | inr free ↦
            let h' : ◌≡◌ {A = Option (Text × ℕ)} (some (id_factory made, made + 1))
                (some (id, next)) =
              rw free at h in
            subst (λ k. is_present (lookup k ts) ≡ false) (some_first h') free
        | inl taken ↦ fresh_id-free fuel ts (made + 1) id next (rw taken at h)
      ]
    where
      some_first :
          {a b : Text} {m n : ℕ} → ◌≡◌ {A = Option (Text × ℕ)} (some (a, m)) (some (b, n)) → a ≡ b
      some_first e = cc

  -- When the factory's ids differ and fewer tasks than the limit run after the cleanup, a
  -- registration succeeds: the new task's id was free, the task is kept under it, every other
  -- task is as the cleanup left it, and all are persisted.
  pub register-found :
      Injective
      → (r : Registry) (tool_name description : Text) (now : ℕ)
      → active_count (cleanup r now).tasks < r.options.max_active_tasks
      → (id : Text) × (r' : Registry) × (register id_factory r tool_name description now
          ≡ ok (new_task id tool_name description now, r'))
        × (is_present (lookup id (cleanup r now).tasks) ≡ false)
        × ((j : Text)
            → lookup j r'.tasks ≡ (
                if id == j
                then some (new_task id tool_name description now)
                else lookup j (cleanup r now).tasks))
        × (r'.persisted ≡ r'.tasks)
  unfolding register persist_now
  register-found inj r tool_name description now lt =
      let c = cleanup r now in
      let (id, next, found) =
        fresh_id-found inj (suc (length c.tasks)) c.tasks c.ids_made (omega arith) in
      let t = new_task id tool_name description now in
      let room : leb r.options.max_active_tasks (active_count c.tasks) ≡ false =
        ground (arith, lt) in
      (
        id,
        record c { tasks = insert id t c.tasks; persisted = insert id t c.tasks; ids_made = next },
        rw (room, found) refl,
        fresh_id-free (suc (length c.tasks)) c.tasks c.ids_made id next found,
        λ j. lookup-insert j id t c.tasks,
        refl,
      )

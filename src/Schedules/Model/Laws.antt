-- ===== src/Schedules/Model/Laws.antt =====
-- Validated jobs: their texts are trimmed already, and no two have the same id.
use qq_bot_v.Prelude.{
  ◌≡◌, refl, inl, inr, Bool, true, false, not, ◌&&◌, Option, none, some, List, [], ◌∷◌, ◌++◌, map,
  ◌==◌, text_eq, text_beq_iff, trim, find, has, leb, length, arith, Bool-cases,
}
use mathlib.Core.Path.{subst, sym}
use qq_bot_v.Prelude.Strings.Trimming.{trim_self}
use qq_bot_v.Schedules.Model.{
  ScheduleJob, trimmed, unique, job_ids, job_names, all_valid, are_valid, validate_schedule_jobs,
  max_active_schedules,
}

trimmed_self : (j : ScheduleJob) → trimmed (trimmed j) ≡ trimmed j
trimmed_self j = rw (trim_self j.id, trim_self j.name, trim_self j.intention) refl

pub map-trimmed_self : (js : List ScheduleJob) → map trimmed (map trimmed js) ≡ map trimmed js
map-trimmed_self [] = refl
map-trimmed_self (j ∷ js) = rw (trimmed_self j, map-trimmed_self js) refl

some-injective : {A : Type 0} {a b : A} → ◌≡◌ {A = Option A} (some a) (some b) → a ≡ b
some-injective h = cc

-- A validation that succeeds gives the jobs with trimmed texts, which are valid.
pub validate_schedule_jobs-some :
    (js saved : List ScheduleJob)
    → validate_schedule_jobs js ≡ some saved
    → (saved ≡ map trimmed js) × (are_valid saved ≡ true)
unfolding validate_schedule_jobs
validate_schedule_jobs-some js saved h = elim (Bool-cases (are_valid (map trimmed js))) [
  | inl valid ↦
      let e : map trimmed js ≡ saved = some-injective (rw (validate_schedule_jobs, valid) at h) in
      (sym e, subst (λ t. are_valid t ≡ true) e valid)
  | inr invalid ↦ absurd (
      let h' : ◌≡◌ {A = Option (List ScheduleJob)} none (some saved) =
        rw (validate_schedule_jobs, invalid) at h in
      let bad : ⊥ = cc in bad)
]

and_true : (a b : Bool) → (a && b) ≡ true → (a ≡ true) × (b ≡ true)
and_true true b h = (refl, h)
and_true false b h = cc

pub are_valid-unique :
    (js : List ScheduleJob)
    → are_valid js ≡ true
    → (unique (job_ids js) ≡ true) × (unique (job_names js) ≡ true)
unfolding are_valid
are_valid-unique js h =
    let (_, h1) = and_true (leb (length js) max_active_schedules) _ h in
    let (_, h2) = and_true (all_valid js) _ h1 in
    and_true (unique (job_ids js)) (unique (job_names js)) h2

-- The id of a job that is valid behind others is none of theirs.
pub unique-last :
    (js : List ScheduleJob) (j : ScheduleJob)
    → unique (job_ids (map trimmed (js ++ j ∷ []))) ≡ true
    → find (λ k. k.id == j.id) js ≡ none
unique-last [] j h = refl
unique-last (k ∷ ks) j h =
    let rest = map trimmed (ks ++ j ∷ []) in
    let (fresh, others) =
      and_true (not (has (trim k.id) (job_ids rest))) (unique (job_ids rest)) h in
    elim (Bool-cases (k.id == j.id)) [
      | inr other ↦ rw other (unique-last ks j others)
      | inl same ↦ absurd (
          let e : k.id ≡ j.id = (text_beq_iff k.id j.id).0 same in
          let in_rest = subst (λ t. has (trim t) (job_ids rest) ≡ true) (sym e) (has_last ks) in
          let bad : ⊥ = not_both fresh in_rest in bad)
    ]
  where
    has_last :
        (ks : List ScheduleJob) → has (trim j.id) (job_ids (map trimmed (ks ++ j ∷ []))) ≡ true
    has_last [] = ground (arith, text_beq_iff (trim j.id) (trim j.id))
    has_last (k ∷ ks) = ground (arith, has_last ks)

    not_both : {b : Bool} → not b ≡ true → ¬ (b ≡ true)
    not_both {b = true} h = cc
    not_both {b = false} h = cc

-- ===== src/Schedules/Runtime/Recorded.antt =====
-- A recorded occurrence is found.
use qq_bot_v.Prelude.{
  ℕ, zero, suc, ◌-◌, ◌≤◌, ◌≡◌, refl, ap, ◌∙◌, inl, inr, true, false, Option, none, some, List, [],
  ◌∷◌, ◌++◌, ◌==◌, nat_eq, text_eq, text_beq_iff, Text, drop, length, length-append, arith,
  Bool-cases, Option-cases,
}
use mathlib.Core.Path.{subst}
use qq_bot_v.Schedules.Occurrences.{
  ScheduleOccurrence, same_occurrence, find_occurrence, max_occurrences, record_new,
  parse_occurrence, record_parsed, record_occurrence,
}

same_occurrence-eq : (a b : ScheduleOccurrence) → same_occurrence a b ≡ true → a ≡ b
same_occurrence-eq a b h =
    let i : a.schedule_id ≡ b.schedule_id =
      ground (arith, h, text_beq_iff a.schedule_id b.schedule_id) in
    let n : a.name ≡ b.name = ground (arith, h, text_beq_iff a.name b.name) in
    let t : a.intention ≡ b.intention = ground (arith, h, text_beq_iff a.intention b.intention) in
    let at : a.scheduled_for ≡ b.scheduled_for = ground (arith, h) in
    λ k. record { schedule_id = i k; name = n k; intention = t k; scheduled_for = at k }

not_first :
    (id : Text) (k : ScheduleOccurrence) (ks : List ScheduleOccurrence)
    → find_occurrence id (k ∷ ks) ≡ none
    → ((k.schedule_id == id) ≡ false) × (find_occurrence id ks ≡ none)
not_first id k ks h = elim (Bool-cases (k.schedule_id == id)) [
  | inl found ↦ absurd (
      let h' : ◌≡◌ {A = Option ScheduleOccurrence} (some k) none = rw found at h in
      let bad : ⊥ = cc in bad)
  | inr other ↦ (other, rw other at h)
]

find-drop :
    (id : Text) (n : ℕ) (os : List ScheduleOccurrence) (o : ScheduleOccurrence)
    → find_occurrence id os ≡ none
    → (o.schedule_id == id) ≡ true
    → n ≤ length os
    → find_occurrence id (drop n (os ++ o ∷ [])) ≡ some o
find-drop id zero [] o h same low = rw same refl
find-drop id (suc n) [] o h same low = absurd (let bad : ⊥ = omega arith in bad)
find-drop id zero (k ∷ ks) o h same low =
    let (other, rest) = not_first id k ks h in
    rw other (find-drop id zero ks o rest same (omega arith))
find-drop id (suc n) (k ∷ ks) o h same low =
    find-drop id n ks o (not_first id k ks h).1 same (omega arith)

some-occurrences :
    {a b : List ScheduleOccurrence}
    → ◌≡◌ {A = Option (List ScheduleOccurrence)} (some a) (some b)
    → a ≡ b
some-occurrences h = cc

-- What is recorded for an occurrence is what the schema makes of it, found under its id.
abbrev pub IsRecorded : ScheduleOccurrence → List ScheduleOccurrence → Type 0
IsRecorded raw os =
    (o : ScheduleOccurrence) × (parse_occurrence raw ≡ some o)
    × (find_occurrence o.schedule_id os ≡ some o)

record_parsed-find :
    (current os : List ScheduleOccurrence) (o : ScheduleOccurrence)
    → record_parsed current (some o) ≡ some os
    → find_occurrence o.schedule_id os ≡ some o
record_parsed-find current os o h = by_existing (find_occurrence o.schedule_id current) refl h
  where
    by_existing :
        (e : Option ScheduleOccurrence)
        → find_occurrence o.schedule_id current ≡ e
        → record_new current o e ≡ some os
        → find_occurrence o.schedule_id os ≡ some o
    by_existing none e h =
        subst (λ os. find_occurrence o.schedule_id os ≡ some o) (some-occurrences h)
          (find-drop o.schedule_id (length (current ++ o ∷ []) - max_occurrences) current o e
            (ground (arith, text_beq_iff o.schedule_id o.schedule_id))
            (let more = length-append current (o ∷ []) in omega arith))
    by_existing (some other) e h = elim (Bool-cases (same_occurrence other o)) [
      | inl same ↦
          let h' : ◌≡◌ {A = Option (List ScheduleOccurrence)} (some current) (some os) =
            rw same at h in
          subst (λ os. find_occurrence o.schedule_id os ≡ some o) (some-occurrences h')
            (e ∙ ap some (same_occurrence-eq other o same))
      | inr different ↦ absurd (
          let h' : ◌≡◌ {A = Option (List ScheduleOccurrence)} none (some os) = rw different at h in
          let bad : ⊥ = cc in bad)
    ]

-- An occurrence that is recorded is found under its schedule.
pub record_occurrence-IsRecorded :
    (current os : List ScheduleOccurrence) (raw : ScheduleOccurrence)
    → record_occurrence current raw ≡ some os
    → IsRecorded raw os
unfolding record_occurrence
record_occurrence-IsRecorded current os raw h = elim (Option-cases (parse_occurrence raw)) [
  | inl refused ↦ absurd (
      let h' : ◌≡◌ {A = Option (List ScheduleOccurrence)} none (some os) = rw refused at h in
      let bad : ⊥ = cc in bad)
  | inr (o, parsed) ↦ (o, parsed, record_parsed-find current os o (rw parsed at h))
]

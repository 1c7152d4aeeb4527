-- ===== src/Schedules/Runtime/Timers.antt =====
-- The jobs behind the timers.
use qq_bot_v.Prelude.{
  ℕ, ◌≡◌, refl, ap, inl, inr, Bool, true, false, not, ◌&&◌, Option, none, some, List, [], ◌∷◌, ◌++◌,
  ◌==◌, nat_eq, nat_beq_iff, text_eq, text_beq_iff, Text, any, insert, delete, All, if_each, arith,
  Bool-cases,
}
use mathlib.Core.Path.{subst, sym}
use qq_bot_v.Schedules.Model.{ScheduleJob}
use qq_bot_v.Schedules.Runtime.{ArmedTimer, Phase, started, is_started, find_job, without, put_job}

-- There is a job with the id and the time.
abbrev pub has_job : List ScheduleJob → Text → ℕ → Bool
has_job js id at = any (λ j. j.id == id && j.at == at) js

-- The timer waits for a job that is there.
abbrev pub IsLive : List ScheduleJob → Text × ArmedTimer → Type 0
IsLive js e = has_job js e.0 e.1.expected_at ≡ true

pub delete-IsLive :
    (js ks : List ScheduleJob) (id : Text) (ts : List (Text × ArmedTimer))
    → ((i : Text) (at : ℕ) → (i == id) ≡ false → has_job js i at ≡ true → has_job ks i at ≡ true)
    → All (IsLive js) ts
    → All (IsLive ks) (delete id ts)
delete-IsLive js ks id [] keeps h = tt
delete-IsLive js ks id ((i, t) ∷ ts) keeps h =
    if_each (All (IsLive ks)) (i == id) _ _ (λ same. delete-IsLive js ks id ts keeps h.1)
      (λ other. (keeps i t.expected_at other h.0, delete-IsLive js ks id ts keeps h.1))

pub insert-IsLive :
    (js : List ScheduleJob) (id : Text) (t : ArmedTimer) (ts : List (Text × ArmedTimer))
    → has_job js id t.expected_at ≡ true
    → All (IsLive js) ts
    → All (IsLive js) (insert id t ts)
insert-IsLive js id t [] there h = (there, tt)
insert-IsLive js id t ((i, u) ∷ ts) there h =
    if_each (All (IsLive js)) (i == id) _ _
      (λ same. (
        subst (λ k. has_job js k t.expected_at ≡ true) (sym ((text_beq_iff i id).0 same)) there,
        h.1,
      ))
      (λ other. (h.0, insert-IsLive js id t ts there h.1))

pub has_job-put_job :
    (j : ScheduleJob) (js : List ScheduleJob) (i : Text) (at : ℕ)
    → (i == j.id) ≡ false
    → has_job js i at ≡ true
    → has_job (put_job j js) i at ≡ true
has_job-put_job j [] i at other h = absurd (let bad : ⊥ = cc in bad)
has_job-put_job j (k ∷ ks) i at other h =
    if_each (λ l. has_job l i at ≡ true) (k.id == j.id) _ _
      (λ same.
        ground
          (arith, h, other, same, text_beq_iff k.id j.id, text_beq_iff k.id i, text_beq_iff i j.id))
      (λ different. ground (arith, h, has_job-put_job j ks i at other))

pub has_job-put_self :
    (j : ScheduleJob) (js : List ScheduleJob) → has_job (put_job j js) j.id j.at ≡ true
has_job-put_self j [] = ground (arith, text_beq_iff j.id j.id, nat_beq_iff j.at j.at)
has_job-put_self j (k ∷ ks) =
    if_each (λ l. has_job l j.id j.at ≡ true) (k.id == j.id) _ _
      (λ same. ground (arith, text_beq_iff j.id j.id, nat_beq_iff j.at j.at))
      (λ different. ground (arith, has_job-put_self j ks))

pub has_job-without :
    (id : Text) (js : List ScheduleJob) (i : Text) (at : ℕ)
    → (i == id) ≡ false
    → has_job js i at ≡ true
    → has_job (without id js) i at ≡ true
has_job-without id [] i at other h = h
has_job-without id (k ∷ ks) i at other h =
    if_each (λ l. has_job l i at ≡ true) (not (k.id == id)) _ _
      (λ different. ground (arith, h, has_job-without id ks i at other))
      (λ same. ground (
        arith,
        h,
        same,
        other,
        text_beq_iff k.id id,
        text_beq_iff k.id i,
        text_beq_iff i id,
        has_job-without id ks i at other,
      ))

-- A job that is found under an id is there, under its own id and its time.
pub find_job-has_job :
    (id : Text) (js : List ScheduleJob) (j : ScheduleJob)
    → find_job id js ≡ some j
    → (j.id ≡ id) × (has_job js id j.at ≡ true)
find_job-has_job id [] j h = absurd (let bad : ⊥ = cc in bad)
find_job-has_job id (k ∷ ks) j h = elim (Bool-cases (k.id == id)) [
  | inl same ↦
      let e : k ≡ j = some_same (rw same at h) in
      subst (λ j. (j.id ≡ id) × (has_job (k ∷ ks) id j.at ≡ true)) e
        ((text_beq_iff k.id id).0 same, ground (arith, same, nat_beq_iff k.at k.at))
  | inr other ↦
      let (named, there) = find_job-has_job id ks j (rw other at h) in
      (named, ground (arith, there))
]
  where
    some_same : {a b : ScheduleJob} → ◌≡◌ {A = Option ScheduleJob} (some a) (some b) → a ≡ b
    some_same h = cc

pub put_job-append :
    (j : ScheduleJob) (js : List ScheduleJob)
    → find_job j.id js ≡ none
    → put_job j js ≡ js ++ j ∷ []
put_job-append j [] h = refl
put_job-append j (k ∷ ks) h = elim (Bool-cases (k.id == j.id)) [
  | inl same ↦ absurd (
      let h' : ◌≡◌ {A = Option ScheduleJob} (some k) none = rw same at h in let bad : ⊥ = cc in bad)
  | inr other ↦ rw other (ap (λ t. k ∷ t) (put_job-append j ks (rw other at h)))
]

pub is_started-started : (p : Phase) → is_started p ≡ true → p ≡ started
is_started-started started h = refl
is_started-started _ h = absurd (let bad : ⊥ = cc in bad)

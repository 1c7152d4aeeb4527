-- ===== src/Tasks/Scheduler/Ending.antt =====
-- The end of a job: what it leaves of the running jobs and of the marks.
use qq_bot_v.Prelude.{
  ℕ, ◌+◌, ◌≡◌, refl, ap, sym, inl, inr, true, false, ◌||◌, not, Option, none, some, List, [], ◌∷◌,
  ◌==◌, nat_eq, text_eq, text_beq_iff, Text, length, keep, has, is_empty, arith, All, Bool-cases,
  Option-cases, if◌then◌else◌,
}
use mathlib.Core.Path.{subst}
use qq_bot_v.Tasks.Scheduler.{
  Job, Lane, Scheduler, forget, take_running, release, ended_lane, end_job, ended,
}
use qq_bot_v.Tasks.Scheduler.Laws.{held, total, marked, Fits, Sound, pump_all-Sound}

-- One job less.
abbrev share : Text → Job → ℕ
share k j = if j.resource_key == k then 1 else 0

-- What taking a job out of a list leaves.
abbrev Leaves : Text → List Job → Job × List Job → Type 0
Leaves k js p = (length js ≡ length p.1 + 1) × (held k js ≡ share k p.0 + held k p.1)

some-pair : {A : Type 0} {a b : A} → ◌≡◌ {A = Option A} (some a) (some b) → a ≡ b
some-pair h = cc

none-some : {A : Type 0} {a : A} → ¬ (◌≡◌ {A = Option A} none (some a))
none-some h = cc

take_running-Leaves :
    (k : Text) (id : ℕ) (js : List Job) (p : Job × List Job)
    → take_running id js ≡ some p
    → Leaves k js p
take_running-Leaves k id [] p h = absurd (none-some h)
take_running-Leaves k id (j ∷ js) p h = elim (Bool-cases (j.id == id)) [
  | inl found ↦
      subst (Leaves k (j ∷ js)) (some-pair (rw (take_running, found) at h)) (omega arith, refl)
  | inr other ↦ elim (Option-cases (take_running id js)) [
    | inl e ↦ absurd (none-some (rw (other, e) at h))
    | inr (q, e) ↦
        let (count, shares) = take_running-Leaves k id js q e in
        subst (Leaves k (j ∷ js)) (some-pair (rw (other, e) at h)) (omega arith, omega arith)
  ]
]

abbrev LanesLeave : Text → List Lane → Job × List Lane → Type 0
LanesLeave k ls p = All Fits p.1 × (total k ls ≡ share k p.0 + total k p.1)

ended-Fits :
    (l : Lane) (running : List Job)
    → length l.running ≡ length running + 1
    → Fits l
    → Fits (ended_lane l running)
ended-Fits l running count (counts, low) = (omega arith, omega arith)

end_job-Leaves :
    (k name : Text) (id : ℕ) (ls : List Lane) (p : Job × List Lane)
    → All Fits ls
    → end_job name id ls ≡ some p
    → LanesLeave k ls p
end_job-Leaves k name id [] p fits h = absurd (none-some h)
end_job-Leaves k name id (l ∷ ls) p fits h = elim (Bool-cases (l.name == name)) [
  | inl same ↦ elim (Option-cases (take_running id l.running)) [
    | inl e ↦ absurd (none-some (rw (same, e) at h))
    | inr (q, e) ↦
        let (count, shares) = take_running-Leaves k id l.running q e in
        subst (LanesLeave k (l ∷ ls)) (some-pair (rw (same, e) at h))
          ((ended-Fits l q.1 count fits.0, fits.1), omega arith)
  ]
  | inr other ↦ elim (Option-cases (end_job name id ls)) [
    | inl e ↦ absurd (none-some (rw (other, e) at h))
    | inr (q, e) ↦
        let (rest, shares) = end_job-Leaves k name id ls q fits.1 e in
        subst (LanesLeave k (l ∷ ls)) (some-pair (rw (other, e) at h)) ((fits.0, rest), omega arith)
  ]
]

has-keep_other :
    (k key : Text) (resources : List Text)
    → (key == k) ≡ false
    → has k (keep (λ i. not (i == key)) resources) ≡ has k resources
has-keep_other k key [] other = refl
has-keep_other k key (i ∷ resources) other = elim (Bool-cases (i == key)) [
  | inl same ↦
      let e : (i == k) ≡ false =
        subst (λ t. (t == k) ≡ false) (sym ((text_beq_iff i key).0 same)) other in
      rw (same, e) (has-keep_other k key resources other)
  | inr different ↦ rw different (ap (λ b. i == k || b) (has-keep_other k key resources other))
]

has-keep_same :
    (k key : Text) (resources : List Text)
    → (key == k) ≡ true
    → has k (keep (λ i. not (i == key)) resources) ≡ false
has-keep_same k key [] same = refl
has-keep_same k key (i ∷ resources) same = elim (Bool-cases (i == key)) [
  | inl out ↦ rw out (has-keep_same k key resources same)
  | inr stays ↦
      let e : (i == k) ≡ false =
        subst (λ t. (i == t) ≡ false) ((text_beq_iff key k).0 same) stays in
      rw (stays, e) (has-keep_same k key resources same)
]

marked-release :
    (k : Text) (j : Job) (resources : List Text) (left : ℕ)
    → is_empty k ≡ false
    → share k j + left ≡ marked k resources
    → left ≡ marked k (release j resources)
marked-release k j resources left named h = elim (Bool-cases (j.resource_key == k)) [
  | inl same ↦
      let h' : 1 + left ≡ marked k resources = rw same at h in
      let full : is_empty j.resource_key ≡ false =
        subst (λ t. is_empty t ≡ false) (sym ((text_beq_iff j.resource_key k).0 same)) named in
      elim (Bool-cases (has k resources)) [
        | inl yes_marked ↦
            let h2 : 1 + left ≡ 1 = rw yes_marked at h' in
            rw (full, has-keep_same k j.resource_key resources same) (omega arith)
        | inr unmarked ↦ absurd (let h2 : 1 + left ≡ 0 = rw unmarked at h' in omega arith)
      ]
  | inr other ↦
      let h0 : 0 + left ≡ marked k resources = rw other at h in
      let h' : left ≡ marked k resources = omega arith in
      elim (Bool-cases (is_empty j.resource_key)) [
        | inl unnamed ↦ rw unnamed h'
        | inr named ↦ rw (named, has-keep_other k j.resource_key resources other) h'
      ]
]

-- The end of a job keeps the scheduler sound.
pub ended-Sound :
    (s : Scheduler) (name : Text) (id : ℕ) (o : Option (Job × List Lane))
    → end_job name id s.lanes ≡ o
    → Sound s
    → Sound (ended s o).0
ended-Sound s name id none e h = h
ended-Sound s name id (some p) e h =
    pump_all-Sound
      (record s {
        lanes = p.1;
        active_resources = release p.0 s.active_resources;
        deduped = forget p.0 s.deduped;
      })
      (record {
        fits = (end_job-Leaves (p.0).resource_key name id s.lanes p h.fits e).0;
        exclusive = λ k. elim (Bool-cases (is_empty k)) [
          | inl unnamed ↦ inl unnamed
          | inr named ↦ elim (h.exclusive k) [
            | inl unnamed ↦ inl unnamed
            | inr same ↦
                let (_, shares) = end_job-Leaves k name id s.lanes p h.fits e in
                inr (marked-release k p.0 s.active_resources (total k p.1) named (omega arith))
          ]
        ];
      })

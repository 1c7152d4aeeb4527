-- ===== src/Tasks/Scheduler/Laws.antt =====
-- No lane runs more jobs than it may, and no two running jobs share a resource.
use qq_bot_v.Prelude.{
  ℕ, zero, suc, ◌+◌, ◌≤◌, ◌<◌, ◌≡◌, refl, sym, ◌⊎◌, inl, inr, Bool, true, false, not, Option, none,
  some, List, [], ◌∷◌, ltb, ◌==◌, nat_eq, text_eq, text_beq_iff, Text, length, has, is_empty, arith,
  All, Bool-cases, Option-cases, if◌then◌else◌,
}
use mathlib.Core.Path.{subst}
use qq_bot_v.Tasks.Scheduler.{
  Job, Lane, Scheduler, is_free, take_free, hold, started, pump_lane, pump_lanes, pump_all,
}

-- How many of the jobs have the resource.
abbrev pub held : Text → List Job → ℕ
held k [] = 0
held k (j ∷ js) = (if j.resource_key == k then 1 else 0) + held k js

abbrev pub total : Text → List Lane → ℕ
total k [] = 0
total k (l ∷ ls) = held k l.running + total k ls

abbrev pub marked : Text → List Text → ℕ
marked k resources = if has k resources then 1 else 0

-- The counter of a lane counts its running jobs, and is within the lane's limit.
abbrev pub Fits : Lane → Type 0
Fits l = (l.active ≡ length l.running) × (l.active ≤ l.concurrency)

take_free-free :
    (resources : List Text) (js : List Job) (p : Job × List Job)
    → take_free resources js ≡ some p
    → is_free resources p.0 ≡ true
take_free-free resources [] p h = cc
take_free-free resources (j ∷ js) p h = elim (Bool-cases (is_free resources j)) [
  | inl free ↦ subst (λ j. is_free resources j ≡ true) (first_of (rw (take_free, free) at h)) free
  | inr taken ↦ elim (Option-cases (take_free resources js)) [
    | inl e ↦
        absurd (let h' : ◌≡◌ {A = Option (Job × List Job)} none (some p) = rw (taken, e) at h in cc)
    | inr (q, e) ↦
        subst (λ j. is_free resources j ≡ true) (first_of (rw (taken, e) at h))
          (take_free-free resources js q e)
  ]
]
  where
    first_of :
        {a b : Job × List Job} → ◌≡◌ {A = Option (Job × List Job)} (some a) (some b) → a.0 ≡ b.0
    first_of h = cc

held-start :
    (k : Text) (n : ℕ) (j : Job) (js : List Job) (resources : List Text)
    → is_empty k ≡ false
    → is_free resources j ≡ true
    → n + held k js ≡ marked k resources
    → n + held k (j ∷ js) ≡ marked k (hold j resources)
held-start k n j js resources named free h = elim (Bool-cases (j.resource_key == k)) [
  | inl same ↦
      let e : j.resource_key ≡ k = (text_beq_iff j.resource_key k).0 same in
      let full : is_empty j.resource_key ≡ false = subst (λ t. is_empty t ≡ false) (sym e) named in
      let unmarked : has k resources ≡ false =
        subst (λ t. has t resources ≡ false) e (not_held (rw full at free)) in
      rw (same, full) (rw same (let h' : n + held k js ≡ 0 = rw unmarked at h in omega arith))
  | inr other ↦ elim (Bool-cases (is_empty j.resource_key)) [
    | inl unnamed ↦ rw (other, unnamed) (omega arith)
    | inr full ↦ rw (other, full) (rw other (omega arith))
  ]
]
  where
    not_held : {b : Bool} → not b ≡ true → b ≡ false
    not_held {b = true} h = cc
    not_held {b = false} h = refl

started-Fits :
    (l : Lane) (j : Job) (queue : List Job)
    → l.active < l.concurrency
    → Fits l
    → Fits (started l j queue)
started-Fits l j queue room (counts, low) = (omega arith, omega arith)

pub pump_lane-Fits :
    (fuel : ℕ) (l : Lane) (resources : List Text) → Fits l → Fits (pump_lane fuel l resources).0
unfolding pump_lane
pump_lane-Fits zero l resources h = h
pump_lane-Fits (suc fuel) l resources h = elim (Bool-cases (ltb l.active l.concurrency)) [
  | inr full ↦ rw (pump_lane, full) h
  | inl room ↦ elim (Option-cases (take_free resources l.queue)) [
    | inl stuck ↦ rw (pump_lane, room, stuck) h
    | inr (p, found) ↦
        rw (pump_lane, room, found)
          (pump_lane-Fits fuel (started l p.0 p.1) (hold p.0 resources)
            (started-Fits l p.0 p.1 (ground (arith, room)) h))
  ]
]

-- The running jobs of other lanes hold `n` of the resource.
abbrev LaneMarked : Text → ℕ → Lane × List Text → Type 0
LaneMarked k n p = n + held k p.0.running ≡ marked k p.1

pump_lane-Marked :
    (k : Text) (n fuel : ℕ) (l : Lane) (resources : List Text)
    → is_empty k ≡ false
    → LaneMarked k n (l, resources)
    → LaneMarked k n (pump_lane fuel l resources)
unfolding pump_lane
pump_lane-Marked k n zero l resources named h = h
pump_lane-Marked k n (suc fuel) l resources named h =
    elim (Bool-cases (ltb l.active l.concurrency)) [
      | inr full ↦ rw (pump_lane, full) h
      | inl room ↦ elim (Option-cases (take_free resources l.queue)) [
        | inl stuck ↦ rw (pump_lane, room, stuck) h
        | inr (p, found) ↦
            rw (pump_lane, room, found)
              (pump_lane-Marked k n fuel (started l p.0 p.1) (hold p.0 resources) named (
                held-start k n p.0 l.running resources named
                  (take_free-free resources l.queue p found) h))
      ]
    ]

pump_lanes-Fits :
    (ls : List Lane) (resources : List Text) → All Fits ls → All Fits (pump_lanes ls resources).0
unfolding pump_lanes
pump_lanes-Fits [] resources h = tt
pump_lanes-Fits (l ∷ ls) resources h = (
  pump_lane-Fits (length l.queue) l resources h.0,
  pump_lanes-Fits ls (pump_lane (length l.queue) l resources).1 h.1,
)

pump_lanes-Marked :
    (k : Text) (n : ℕ) (ls : List Lane) (resources : List Text)
    → is_empty k ≡ false
    → n + total k ls ≡ marked k resources
    → n + total k (pump_lanes ls resources).0 ≡ marked k (pump_lanes ls resources).1
unfolding pump_lanes
pump_lanes-Marked k n [] resources named h = h
pump_lanes-Marked k n (l ∷ ls) resources named h =
    let first = pump_lane (length l.queue) l resources in
    let a = pump_lane-Marked k (n + total k ls) (length l.queue) l resources named (omega arith) in
    let b = pump_lanes-Marked k (n + held k first.0.running) ls first.1 named (omega arith) in
    omega arith

-- Every lane is within its limit, and every resource is held once when it is marked, and else never.
pub record Sound (s : Scheduler) : Type 0 where
  pub fits : All Fits s.lanes
  pub exclusive : (k : Text) → (is_empty k ≡ true) ⊎ (total k s.lanes ≡ marked k s.active_resources)

pub pump_all-Sound : (s : Scheduler) → Sound s → Sound (pump_all s).0
unfolding pump_all
pump_all-Sound s h = record {
  fits = pump_lanes-Fits s.lanes s.active_resources h.fits;
  exclusive = λ k. elim (Bool-cases (is_empty k)) [
    | inl unnamed ↦ inl unnamed
    | inr named ↦ elim (h.exclusive k) [
      | inl unnamed ↦ inl unnamed
      | inr le ↦ inr (
          let m = pump_lanes-Marked k 0 s.lanes s.active_resources named (omega arith) in
          omega arith)
    ]
  ];
}

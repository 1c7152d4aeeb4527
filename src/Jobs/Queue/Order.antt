-- ===== src/Jobs/Queue/Order.antt =====
-- Where a job goes in a queue that is ordered by priority.
use qq_bot_v.Prelude.{
  ℕ, ◌≤◌, ◌≡◌, refl, ap, inl, inr, Bool, true, false, List, [], ◌∷◌, ◌++◌, ltb, leb, keep, All,
  All-map, arith, Bool-cases,
}
use qq_bot_v.Jobs.Queue.{QueuedJob, priority_order, push_by_priority}

abbrev pub rank : QueuedJob → ℕ
rank job = priority_order job.priority

abbrev pub NotAbove : ℕ → QueuedJob → Type 0
NotAbove n job = rank job ≤ n

-- No job stands before one of a higher priority.
abbrev pub Ordered : List QueuedJob → Type 0
Ordered [] = Unit
Ordered (q ∷ qs) = All (NotAbove (rank q)) qs × Ordered qs

NotAbove-push_by_priority :
    (n : ℕ) (qs : List QueuedJob) (job : QueuedJob)
    → rank job ≤ n
    → All (NotAbove n) qs
    → All (NotAbove n) (push_by_priority qs job)
NotAbove-push_by_priority n [] job low h = (low, tt)
NotAbove-push_by_priority n (q ∷ qs) job low h = elim (Bool-cases (ltb (rank q) (rank job))) [
  | inl lower ↦ rw lower (low, h)
  | inr other ↦ rw other (h.0, NotAbove-push_by_priority n qs job low h.1)
]

pub push_by_priority-Ordered :
    (qs : List QueuedJob) (job : QueuedJob) → Ordered qs → Ordered (push_by_priority qs job)
push_by_priority-Ordered [] job h = (tt, tt)
push_by_priority-Ordered (q ∷ qs) job h = elim (Bool-cases (ltb (rank q) (rank job))) [
  | inl lower ↦ rw lower (
    (
      omega (arith, lower_rank lower),
      All-map (NotAbove (rank q)) (NotAbove (rank job)) qs (λ r le. omega (arith, lower_rank lower))
          h.0,
    ),
    h,
  )
  | inr other ↦ rw other (
    NotAbove-push_by_priority (rank q) qs job (ground (arith, other)) h.0,
    push_by_priority-Ordered qs job h.1,
  )
]
  where
    lower_rank : ltb (rank q) (rank job) ≡ true → rank q ≤ rank job
    lower_rank h = ground (arith, h)

abbrev pub at_least : QueuedJob → QueuedJob → Bool
at_least job q = leb (rank job) (rank q)

abbrev pub below : QueuedJob → QueuedJob → Bool
below job q = ltb (rank q) (rank job)

keep-below :
    (n : ℕ) (qs : List QueuedJob) (job : QueuedJob)
    → ltb n (rank job) ≡ true
    → All (NotAbove n) qs
    → (keep (at_least job) qs ≡ []) × (keep (below job) qs ≡ qs)
keep-below n [] job lower h = (refl, refl)
keep-below n (q ∷ qs) job lower h =
    let (none_kept, all_kept) = keep-below n qs job lower h.1 in
    let low : leb (rank job) (rank q) ≡ false = ground (arith, lower, h.0) in
    let under : ltb (rank q) (rank job) ≡ true = ground (arith, lower, h.0) in
    (rw low none_kept, rw under (ap (λ t. q ∷ t) all_kept))

-- In a queue that is ordered, a job goes behind all the jobs of its priority or a higher one, and
-- before the others: jobs of one priority keep the order in which they came.
pub push_by_priority-splits :
    (qs : List QueuedJob) (job : QueuedJob)
    → Ordered qs
    → push_by_priority qs job ≡ keep (at_least job) qs ++ job ∷ keep (below job) qs
push_by_priority-splits [] job h = refl
push_by_priority-splits (q ∷ qs) job h = elim (Bool-cases (ltb (rank q) (rank job))) [
  | inl lower ↦
      let (none_kept, all_kept) = keep-below (rank q) (q ∷ qs) job lower (omega arith, h.0) in
      rw (none_kept, all_kept, lower) refl
  | inr other ↦
      let high : leb (rank job) (rank q) ≡ true = ground (arith, other) in
      rw (other, high) (ap (λ t. q ∷ t) (push_by_priority-splits qs job h.1))
]

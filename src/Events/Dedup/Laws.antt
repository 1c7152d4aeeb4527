-- ===== src/Events/Dedup/Laws.antt =====
-- Every message enters the queue once while the replay runs.
use qq_bot_v.Prelude.{
  ℕ, ◌≡◌, refl, ap, sym, ◌∙◌, ◌⊎◌, inl, inr, Bool, true, false, ◌||◌, not, Option, none, some, List,
  [], ◌∷◌, ◌++◌, has, ◌==◌, nat_eq, arith, if◌then◌else◌, Bool-cases, Option-cases, keep,
}
use mathlib.Core.Path.{subst}
use mathlib.Core.List.{append_assoc, append-nil}
use qq_bot_v.Events.Types.{BotEvent}
use qq_bot_v.Events.Queue.{EventQueue, enqueue}
use qq_bot_v.Events.Dedup.{Dedup, create_dedup_enqueue, row_id_of, push, dedup_enqueue}

abbrev pub enqueue_all : Dedup → List BotEvent → Dedup
enqueue_all d [] = d
enqueue_all d (e ∷ es) = enqueue_all (dedup_enqueue d e).1 es

abbrev fresh_row : List ℕ → Option ℕ → Bool
fresh_row seen none = true
fresh_row seen (some row) = not (has row seen)

abbrev add_row : Option ℕ → List ℕ → List ℕ
add_row none seen = seen
add_row (some row) seen = row ∷ seen

-- The events without those messages whose row id an earlier one has, or that is in `seen`.
abbrev pub first_occurrences : List ℕ → List BotEvent → List BotEvent
first_occurrences seen [] = []
first_occurrences seen (e ∷ es) =
    if fresh_row seen (row_id_of e)
    then e ∷ first_occurrences (add_row (row_id_of e) seen) es
    else first_occurrences seen es

abbrev pub rows : List BotEvent → List ℕ
rows [] = []
rows (e ∷ es) = add_row (row_id_of e) (rows es)

abbrev pub Distinct : List ℕ → Type 0
Distinct [] = Unit
Distinct (r ∷ rs) = (has r rs ≡ false) × Distinct rs

abbrev pub is_control : BotEvent → Bool
is_control e = elim (row_id_of e) [ none ↦ true | some r ↦ false ]

-- `xs` is what is left of `ys` when some of it is left out.
abbrev pub Subsequence : List BotEvent → List BotEvent → Type 0
Subsequence [] ys = Unit
Subsequence (x ∷ xs) [] = ⊥
Subsequence (x ∷ xs) (y ∷ ys) = ((x ≡ y) × Subsequence xs ys) ⊎ Subsequence (x ∷ xs) ys

Subsequence-more :
    (xs : List BotEvent) (y : BotEvent) (ys : List BotEvent)
    → Subsequence xs ys
    → Subsequence xs (y ∷ ys)
Subsequence-more [] y ys h = tt
Subsequence-more (x ∷ xs) y ys h = inr h

firsts-Subsequence :
    (seen : List ℕ) (es : List BotEvent) → Subsequence (first_occurrences seen es) es
firsts-Subsequence seen [] = tt
firsts-Subsequence seen (e ∷ es) = elim (Bool-cases (fresh_row seen (row_id_of e))) [
  | inl fresh ↦ rw fresh (inl (refl, firsts-Subsequence (add_row (row_id_of e) seen) es))
  | inr old ↦
      rw old (Subsequence-more (first_occurrences seen es) e es (firsts-Subsequence seen es))
]

firsts-unseen :
    (r : ℕ) (seen : List ℕ) (es : List BotEvent)
    → has r seen ≡ true
    → has r (rows (first_occurrences seen es)) ≡ false
firsts-unseen r seen [] h = refl
firsts-unseen r seen (e ∷ es) h = elim (Option-cases (row_id_of e)) [
  | inl p ↦ rw p (rw p (firsts-unseen r seen es h))
  | inr (row, p) ↦ elim (Bool-cases (has row seen)) [
    | inl old ↦ rw (p, old) (firsts-unseen r seen es h)
    | inr fresh ↦ rw (p, fresh) (rw p (ground (arith, firsts-unseen r (row ∷ seen) es)))
  ]
]

firsts-Distinct : (seen : List ℕ) (es : List BotEvent) → Distinct (rows (first_occurrences seen es))
firsts-Distinct seen [] = tt
firsts-Distinct seen (e ∷ es) = elim (Option-cases (row_id_of e)) [
  | inl p ↦ rw p (rw p (firsts-Distinct seen es))
  | inr (row, p) ↦ elim (Bool-cases (has row seen)) [
    | inl old ↦ rw (p, old) (firsts-Distinct seen es)
    | inr fresh ↦
        rw (p, fresh)
          (rw p (firsts-unseen row (row ∷ seen) es (ground arith), firsts-Distinct (row ∷ seen) es))
  ]
]

-- What equals an element is one.
has-at : (row r : ℕ) (seen : List ℕ) → has row seen ≡ true → (row == r) ≡ true → has r seen ≡ true
has-at row r seen h e = let p : row ≡ r = ground (arith, e) in subst (λ n. has n seen ≡ true) p h

firsts-rows :
    (r : ℕ) (seen : List ℕ) (es : List BotEvent)
    → (has r seen || has r (rows (first_occurrences seen es))) ≡ (has r seen || has r (rows es))
firsts-rows r seen [] = refl
firsts-rows r seen (e ∷ es) = elim (Option-cases (row_id_of e)) [
  | inl p ↦ rw p (rw p (firsts-rows r seen es))
  | inr (row, p) ↦ elim (Bool-cases (has row seen)) [
    | inl old ↦ rw (p, old) (ground (arith, firsts-rows r seen es, has-at row r seen old))
    | inr fresh ↦ rw (p, fresh) (rw p (ground (arith, firsts-rows r (row ∷ seen) es)))
  ]
]

firsts-control :
    (seen : List ℕ) (es : List BotEvent)
    → keep is_control (first_occurrences seen es) ≡ keep is_control es
firsts-control seen [] = refl
firsts-control seen (e ∷ es) = elim (Option-cases (row_id_of e)) [
  | inl p ↦ rw (p, is_control, p) (ap (λ es. e ∷ es) (firsts-control seen es))
  | inr (row, p) ↦
      let message : is_control e ≡ false = rw (is_control, p) refl in
      elim (Bool-cases (has row seen)) [
        | inl old ↦ rw (message, p, old) (firsts-control seen es)
        | inr fresh ↦ rw (message, p, fresh) (rw message (firsts-control (row ∷ seen) es))
      ]
]

push-events :
    (d : Dedup) (e : BotEvent) (more : List BotEvent)
    → (push d e).queue.events ++ more ≡ d.queue.events ++ e ∷ more
unfolding enqueue
push-events d e more = append_assoc d.queue.events (e ∷ []) more

module _ (d : Dedup) (e : BotEvent) where
  dedup_enqueue-control :
      d.replay_active ≡ true → row_id_of e ≡ none → (dedup_enqueue d e).1 ≡ push d e
  unfolding dedup_enqueue
  dedup_enqueue-control active p = simp (active, p)

  dedup_enqueue-old :
      (row : ℕ)
      → d.replay_active ≡ true
      → row_id_of e ≡ some row
      → has row d.seen_message_row_ids ≡ true
      → (dedup_enqueue d e).1 ≡ d
  unfolding dedup_enqueue
  dedup_enqueue-old row active p old = simp (active, p, old)

  dedup_enqueue-fresh :
      (row : ℕ)
      → d.replay_active ≡ true
      → row_id_of e ≡ some row
      → has row d.seen_message_row_ids ≡ false
      → (dedup_enqueue d e).1
        ≡ push (record d { seen_message_row_ids = row ∷ d.seen_message_row_ids }) e
  unfolding dedup_enqueue
  dedup_enqueue-fresh row active p fresh = simp (active, p, fresh)

enqueue_all-firsts :
    (es : List BotEvent) (d : Dedup)
    → d.replay_active ≡ true
    → (enqueue_all d es).queue.events
      ≡ d.queue.events ++ first_occurrences d.seen_message_row_ids es
enqueue_all-firsts [] d active = sym (append-nil d.queue.events)
enqueue_all-firsts (e ∷ es) d active = elim (Option-cases (row_id_of e)) [
  | inl p ↦
      ap (λ d. (enqueue_all d es).queue.events) (dedup_enqueue-control d e active p)
      ∙ enqueue_all-firsts es (push d e) active
      ∙ rw p (push-events d e (first_occurrences d.seen_message_row_ids es))
  | inr (row, p) ↦ elim (Bool-cases (has row d.seen_message_row_ids)) [
    | inl old ↦
        ap (λ d. (enqueue_all d es).queue.events) (dedup_enqueue-old d e row active p old)
        ∙ rw (p, old) (enqueue_all-firsts es d active)
    | inr fresh ↦
        ap (λ d. (enqueue_all d es).queue.events) (dedup_enqueue-fresh d e row active p fresh)
        ∙ enqueue_all-firsts es
            (push (record d { seen_message_row_ids = row ∷ d.seen_message_row_ids }) e) active
        ∙ rw (p, fresh) (push-events d e (first_occurrences (row ∷ d.seen_message_row_ids) es))
  ]
]

-- While the replay runs, what a list of events adds to the queue is a subsequence of it with all
-- its control events, with every message row id of it, and with none of them twice.
pub enqueue_all-Distinct :
    (es : List BotEvent) (q : EventQueue BotEvent)
    → (added : List BotEvent) × ((enqueue_all (create_dedup_enqueue q) es).queue.events
        ≡ q.events ++ added)
      × Subsequence added es
      × Distinct (rows added)
      × ((r : ℕ) → has r (rows added) ≡ has r (rows es))
      × (keep is_control added ≡ keep is_control es)
unfolding create_dedup_enqueue
enqueue_all-Distinct es q = (
  first_occurrences [] es,
  enqueue_all-firsts es (record { seen_message_row_ids = []; replay_active = true; queue = q })
      refl,
  firsts-Subsequence [] es,
  firsts-Distinct [] es,
  λ r. firsts-rows r [] es,
  firsts-control [] es,
)

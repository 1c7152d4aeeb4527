-- ===== src/Compaction/Units/Laws.antt =====
-- What the atomic units of a history are, and that any run of them is a history again.
use qq_bot_v.Prelude.{
  ℕ, zero, suc, ◌≤◌, ◌≡◌, refl, ap, ◌∙◌, inl, inr, Bool-cases, true, Option, none, some, List, [],
  ◌∷◌, ◌++◌, arith, length, length-append, take, drop, take-append-drop, flat_map, All, Text,
  text_eq, text_beq_iff,
}
use qq_bot_v.Ledger.Types.{Message, user, assistant, tool, ToolCall, ToolContent}
use qq_bot_v.Compaction.Units.{
  AtomicUnit, is_result_of, results_match, unit_of, push_unit, round, build_units,
  build_atomic_units,
}

abbrev pub flatten : {T : Type 0} → List (AtomicUnit T) → List T
flatten us = flat_map (λ u. u.items) us

module _ {A : Type 0} where
  take-append_exact : (xs ys : List A) (n : ℕ) → length xs ≡ n → take n (xs ++ ys) ≡ xs
  take-append_exact [] ys zero h = refl
  take-append_exact [] ys (suc n) h = absurd (omega arith)
  take-append_exact (x ∷ xs) ys zero h = absurd (omega arith)
  take-append_exact (x ∷ xs) ys (suc n) h =
      ap (λ t. x ∷ t) (take-append_exact xs ys n (omega arith))

  drop-append_exact : (xs ys : List A) (n : ℕ) → length xs ≡ n → drop n (xs ++ ys) ≡ ys
  drop-append_exact [] ys zero h = refl
  drop-append_exact [] ys (suc n) h = absurd (omega arith)
  drop-append_exact (x ∷ xs) ys zero h = absurd (omega arith)
  drop-append_exact (x ∷ xs) ys (suc n) h = drop-append_exact xs ys n (omega arith)

module _ {T : Type 0} (get_message : T → Message) (get_tokens : T → ℕ) where
  -- The messages are tool results: one for each call, in the order of the calls, with its id.
  abbrev pub HasResults : List ToolCall → List T → Type 0
  HasResults [] [] = Unit
  HasResults (c ∷ cs) (t ∷ ts) =
      ((content : ToolContent) × (get_message t ≡ tool c.id content)) × HasResults cs ts
  HasResults _ _ = ⊥

  is_result_of-tool :
      (m : Message) (c : ToolCall)
      → is_result_of get_message get_tokens m c ≡ true
      → (content : ToolContent) × (m ≡ tool c.id content)
  is_result_of-tool (tool id content) c h =
      (content, ap (λ i. tool i content) ((text_beq_iff id c.id).0 h))
  is_result_of-tool (user content) c h = cc
  is_result_of-tool (assistant content calls native) c h = cc

  pub results_match-HasResults :
      (calls : List ToolCall) (results : List T)
      → results_match get_message get_tokens calls results ≡ true
      → HasResults calls results
  results_match-HasResults [] [] h = tt
  results_match-HasResults [] (t ∷ ts) h = cc
  results_match-HasResults (c ∷ cs) [] h = cc
  results_match-HasResults (c ∷ cs) (t ∷ ts) h = (
    is_result_of-tool (get_message t) c (ground (arith, h)),
    results_match-HasResults cs ts (ground (arith, h)),
  )

  HasResults-results_match :
      (calls : List ToolCall) (results : List T)
      → HasResults calls results
      → results_match get_message get_tokens calls results ≡ true
  HasResults-results_match [] [] h = refl
  HasResults-results_match [] (t ∷ ts) h = absurd h
  HasResults-results_match (c ∷ cs) [] h = absurd h
  HasResults-results_match (c ∷ cs) (t ∷ ts) ((content, e), h) =
      rw e (rw ((text_beq_iff c.id c.id).1 refl) (HasResults-results_match cs ts h))

  -- What may follow a message in its unit: nothing, or exactly the results of its calls.
  abbrev pub IsClosedBy : Message → List T → Type 0
  IsClosedBy (tool _ _) results = ⊥
  IsClosedBy (user _) results = results ≡ []
  IsClosedBy (assistant _ calls _) results = HasResults calls results

  abbrev pub IsAtomic : AtomicUnit T → Type 0
  IsAtomic u =
      (item : T) × (results : List T) × (u ≡ unit_of get_message get_tokens item results)
      × IsClosedBy (get_message item) results

  push_unit-eq-some :
      (u : AtomicUnit T) (o : Option (List (AtomicUnit T))) (us : List (AtomicUnit T))
      → push_unit get_message get_tokens u o ≡ some us
      → (rest : List (AtomicUnit T)) × (o ≡ some rest) × (us ≡ u ∷ rest)
  push_unit-eq-some u none us h = cc
  push_unit-eq-some u (some rest) us h = (rest, refl, cc)

  abbrev Rounds :
      (List T → Option (List (AtomicUnit T))) → Message → T → List T → List (AtomicUnit T) → Type 0
  Rounds next m item rest us =
      (results : List T) × (more : List T) × (us' : List (AtomicUnit T)) × (us
        ≡ unit_of get_message get_tokens item results ∷ us')
      × (results ++ more ≡ rest)
      × IsClosedBy m results
      × (next more ≡ some us')

  round_sound :
      (next : List T → Option (List (AtomicUnit T))) (m : Message) (item : T) (rest : List T)
      (us : List (AtomicUnit T))
      → round get_message get_tokens next m item rest ≡ some us
      → Rounds next m item rest us
  round_sound next (tool id content) item rest us h = cc
  round_sound next (user content) item rest us h =
      let (us', e, p) = push_unit-eq-some _ (next rest) us h in ([], rest, us', p, refl, refl, e)
  round_sound next (assistant content [] native) item rest us h =
      let (us', e, p) = push_unit-eq-some _ (next rest) us h in ([], rest, us', p, refl, tt, e)
  round_sound next (assistant content (c ∷ cs) native) item rest us h =
      let n = length (c ∷ cs) in
      elim (Bool-cases (results_match get_message get_tokens (c ∷ cs) (take n rest))) [
        | inl closed ↦
            let (us', e, p) = push_unit-eq-some _ (next (drop n rest)) us (rw closed at h) in
            (
              take n rest,
              drop n rest,
              us',
              p,
              take-append-drop n rest,
              results_match-HasResults (c ∷ cs) (take n rest) closed,
              e,
            )
        | inr open_call ↦ cc
      ]

  build_units_sound :
      (fuel : ℕ) (items : List T) (us : List (AtomicUnit T))
      → build_units get_message get_tokens fuel items ≡ some us
      → All IsAtomic us × (flatten us ≡ items)
  unfolding build_units
  build_units_sound fuel [] us h = let e : us ≡ [] = cc in rw e (tt, refl)
  build_units_sound zero (item ∷ rest) us h = cc
  build_units_sound (suc fuel) (item ∷ rest) us h =
      let (results, more, us', p, q, closed, e) =
        round_sound (build_units get_message get_tokens fuel) (get_message item) item rest us h in
      let (atomic, same) = build_units_sound fuel more us' e in
      rw p (
        ((item, results, refl, closed), atomic),
        ap (λ t. item ∷ t) (ap (λ t. results ++ t) same ∙ q),
      )

  length-results_match :
      (calls : List ToolCall) (results : List T)
      → results_match get_message get_tokens calls results ≡ true
      → length results ≡ length calls
  length-results_match [] [] h = refl
  length-results_match [] (t ∷ ts) h = cc
  length-results_match (c ∷ cs) [] h = cc
  length-results_match (c ∷ cs) (t ∷ ts) h = ground (arith, length-results_match cs ts)

  round_complete :
      (next : List T → Option (List (AtomicUnit T))) (m : Message) (item : T)
      (results more : List T) (us : List (AtomicUnit T))
      → IsClosedBy m results
      → next more ≡ some us
      → round get_message get_tokens next m item (results ++ more)
        ≡ some (unit_of get_message get_tokens item results ∷ us)
  round_complete next (tool id content) item results more us h e = absurd h
  round_complete next (user content) item results more us h e = rw h (rw e)
  round_complete next (assistant content [] native) item [] more us h e = rw e
  round_complete next (assistant content [] native) item (r ∷ rs) more us h e = absurd h
  round_complete next (assistant content (c ∷ cs) native) item results more us h e =
      let matched = HasResults-results_match (c ∷ cs) results h in
      let n = length-results_match (c ∷ cs) results matched in
      rw (take-append_exact results more (length (c ∷ cs)) n)
        (rw (drop-append_exact results more (length (c ∷ cs)) n) (rw (matched, e)))

  -- With fuel for its items, any run of atomic units is read back as those units.
  build_units_complete :
      (us : List (AtomicUnit T)) (fuel : ℕ)
      → All IsAtomic us
      → length (flatten us) ≤ fuel
      → build_units get_message get_tokens fuel (flatten us) ≡ some us
  unfolding build_units
  build_units_complete [] fuel h enough = refl
  build_units_complete (u ∷ us) zero ((item, results, p, closed), h) enough =
      let e : suc (length (results ++ flatten us)) ≤ 0 = rw p at enough in absurd (omega arith)
  build_units_complete (u ∷ us) (suc fuel) ((item, results, p, closed), h) enough =
      let short : length (flatten us) ≤ fuel =
        (let e : suc (length (results ++ flatten us)) ≤ suc fuel = rw p at enough in
          omega (arith, length-append results (flatten us))) in
      rw p (
        round_complete (build_units get_message get_tokens fuel) (get_message item) item results
          (flatten us) us closed (build_units_complete us fuel h short))

  -- The units that are built are atomic: a user message, an assistant message without calls, or an
  -- assistant message with exactly the results of its calls. Together they are the items.
  pub build_atomic_units_sound :
      (items : List T) (us : List (AtomicUnit T))
      → build_atomic_units get_message get_tokens items ≡ some us
      → All IsAtomic us × (flatten us ≡ items)
  unfolding build_atomic_units
  build_atomic_units_sound items us h = build_units_sound (length items) items us h

  -- Atomic units are built again from their items.
  pub build_atomic_units_complete :
      (us : List (AtomicUnit T))
      → All IsAtomic us
      → build_atomic_units get_message get_tokens (flatten us) ≡ some us
  unfolding build_atomic_units
  build_atomic_units_complete us h = build_units_complete us _ h (omega arith)

-- An item list that starts with a tool result has no units.
pub build_atomic_units-not_tool :
    {T : Type 0} (get_message : T → Message) (get_tokens : T → ℕ) (item : T) (rest : List T)
    (us : List (AtomicUnit T)) (id : Text) (content : ToolContent)
    → get_message item ≡ tool id content
    → ¬ (build_atomic_units get_message get_tokens (item ∷ rest) ≡ some us)
unfolding build_atomic_units build_units
build_atomic_units-not_tool g t item rest us id content e h =
    let h' : ◌≡◌ {A = Option _} none (some us) = rw e at h in cc

-- ===== src/Loop/Kernel/Batches.antt =====
-- Which calls of a round run together (src/agent/react-kernel.ts: the batches of runReactRound).
use qq_bot_v.Prelude.{
  ℕ, zero, suc, ◌≤◌, ◌≡◌, refl, ap, ◌∙◌, ◌⊎◌, inl, inr, Bool, true, false, not, List, [], ◌∷◌, ◌++◌,
  any, length, length-append, drop, flat_map, All, arith, Bool-cases,
}
use qq_bot_v.Ledger.Types.{ToolCall}
use qq_bot_v.Loop.Kernel.Tools.{take_parallel_safe_batch, batch_of, batches_from, call_batches}
use qq_bot_v.Loop.Kernel.Laws.{batch_of-prefix, length-batch_of}

module _ (parallel_safe : ToolCall → Bool) where
  abbrev AllSafe : List ToolCall → Type 0
  AllSafe cs = All (λ c. parallel_safe c ≡ true) cs

  -- One call, or several that may all run together.
  abbrev pub IsBatch : List ToolCall → Type 0
  IsBatch [] = ⊥
  IsBatch (c ∷ []) = Unit
  IsBatch (c ∷ d ∷ cs) = AllSafe (c ∷ d ∷ cs)

  abbrev pub starts_safe : List ToolCall → Bool
  starts_safe [] = false
  starts_safe (c ∷ cs) = parallel_safe c

  abbrev pub joined : List (List ToolCall) → List ToolCall
  joined bs = flat_map (λ b. b) bs

  -- No batch could have gone on: it has a call that must run alone, or such a call follows it, or
  -- nothing does.
  abbrev pub AreMaximal : List (List ToolCall) → Type 0
  AreMaximal [] = Unit
  AreMaximal (b ∷ bs) =
      ((any (λ c. not (parallel_safe c)) b ≡ true) ⊎ (starts_safe (joined bs) ≡ false))
      × AreMaximal bs

  take_parallel_safe_batch-AllSafe :
      (cs : List ToolCall) → AllSafe (take_parallel_safe_batch parallel_safe cs)
  take_parallel_safe_batch-AllSafe [] = tt
  take_parallel_safe_batch-AllSafe (c ∷ cs) = elim (Bool-cases (parallel_safe c)) [
    | inl safe ↦ rw safe (safe, take_parallel_safe_batch-AllSafe cs)
    | inr other ↦ rw other tt
  ]

  take_parallel_safe_batch-stops :
      (cs : List ToolCall)
      → starts_safe (drop (length (take_parallel_safe_batch parallel_safe cs)) cs) ≡ false
  take_parallel_safe_batch-stops [] = refl
  take_parallel_safe_batch-stops (c ∷ cs) = elim (Bool-cases (parallel_safe c)) [
    | inl safe ↦ rw safe (take_parallel_safe_batch-stops cs)
    | inr other ↦ rw other other
  ]

  AllSafe-IsBatch : (c : ToolCall) (cs : List ToolCall) → AllSafe (c ∷ cs) → IsBatch (c ∷ cs)
  AllSafe-IsBatch c [] h = tt
  AllSafe-IsBatch c (d ∷ cs) h = h

  batch_of-IsBatch : (c : ToolCall) (cs : List ToolCall) → IsBatch (batch_of parallel_safe c cs)
  batch_of-IsBatch c cs = elim (Bool-cases (parallel_safe c)) [
    | inl safe ↦ rw safe (
        AllSafe-IsBatch c (take_parallel_safe_batch parallel_safe cs)
          (safe, take_parallel_safe_batch-AllSafe cs))
    | inr other ↦ rw other tt
  ]

  batch_of-stops :
      (c : ToolCall) (cs : List ToolCall)
      → (any (λ c. not (parallel_safe c)) (batch_of parallel_safe c cs) ≡ true)
        ⊎ (starts_safe (drop (length (batch_of parallel_safe c cs)) (c ∷ cs)) ≡ false)
  batch_of-stops c cs = elim (Bool-cases (parallel_safe c)) [
    | inl safe ↦ inr (rw safe (take_parallel_safe_batch-stops cs))
    | inr other ↦ inl (rw other (rw other refl))
  ]

  abbrev Splits : List ToolCall → List (List ToolCall) → Type 0
  Splits calls bs = (joined bs ≡ calls) × (All IsBatch bs × AreMaximal bs)

  batches_from-Splits :
      (fuel : ℕ) (cs : List ToolCall)
      → length cs ≤ fuel
      → Splits cs (batches_from parallel_safe fuel cs)
  batches_from-Splits fuel [] h = (refl, (tt, tt))
  batches_from-Splits zero (c ∷ cs) h = absurd (let bad : ⊥ = omega arith in bad)
  batches_from-Splits (suc fuel) (c ∷ cs) h =
      let batch = batch_of parallel_safe c cs in
      let rest = drop (length batch) (c ∷ cs) in
      let whole = batch_of-prefix parallel_safe c cs in
      let parts = length-append batch rest in
      let all : length (batch ++ rest) ≡ length (c ∷ cs) = ap length whole in
      let some_taken = length-batch_of parallel_safe c cs in
      let (same, (each, maximal)) = batches_from-Splits fuel rest (omega arith) in
      (
        ap (λ l. batch ++ l) same ∙ whole,
        ((batch_of-IsBatch c cs, each), (rw same (batch_of-stops c cs), maximal)),
      )

  -- The batches of a round's calls are these calls, in their order. No batch is empty, and one of
  -- several calls has only calls that may run together. No batch ends early: it has a call that
  -- must run alone, or such a call follows it, or nothing does.
  pub call_batches-Splits :
      (calls : List ToolCall)
      → (joined (call_batches parallel_safe calls) ≡ calls)
        × (All IsBatch (call_batches parallel_safe calls)
            × AreMaximal (call_batches parallel_safe calls))
  unfolding call_batches
  call_batches-Splits calls = batches_from-Splits (length calls) calls (omega arith)

-- ===== src/Loop/Kernel/Laws.antt =====
-- The batches of a round have its calls in order, and add their results in this order.
use qq_bot_v.Prelude.{
  ℕ, zero, suc, ◌+◌, ◌≤◌, ◌≡◌, refl, sym, ap, ◌∙◌, inl, inr, Bool, Option, List, [], ◌∷◌, ◌++◌,
  text_eq, Text, length, length-append, drop, if_each, Result, ok, err, ◌>>=◌, arith, Bool-cases,
}
use qq_bot_v.Prelude.Values.{Value}
use qq_bot_v.Ledger.Types.{ToolCall, ContentBlock}
use qq_bot_v.Loop.Kernel.Tools.{
  ToolExecutionResult, Performed, take_parallel_safe_batch, batch_of, execute_tool_call, add_result,
  perform_batch, batches_from, call_batches, perform_batches, perform_calls,
}

bind_assoc :
    {E A B C : Type 0} (m : Result E A) (f : A → Result E B) (g : B → Result E C)
    → m >>= f >>= g ≡ (m >>= λ a. f a >>= g)
bind_assoc (ok a) f g = refl
bind_assoc (err e) f g = refl

bind-cong :
    {E A B : Type 0} (m : Result E A) (f g : A → Result E B)
    → ((a : A) → f a ≡ g a)
    → m >>= f ≡ m >>= g
bind-cong (ok a) f g h = h a
bind-cong (err e) f g h = refl

module _ (parallel_safe : ToolCall → Bool) where
  take_parallel_safe_batch-prefix :
      (cs : List ToolCall)
      → take_parallel_safe_batch parallel_safe cs
          ++ drop (length (take_parallel_safe_batch parallel_safe cs)) cs
        ≡ cs
  take_parallel_safe_batch-prefix [] = refl
  take_parallel_safe_batch-prefix (c ∷ cs) =
      if_each (λ b. b ++ drop (length b) (c ∷ cs) ≡ c ∷ cs) (parallel_safe c) _ _
        (λ safe. ap (λ t. c ∷ t) (take_parallel_safe_batch-prefix cs)) (λ other. refl)

  -- A batch is the first call and some that follow it.
  pub batch_of-prefix :
      (c : ToolCall) (cs : List ToolCall)
      → batch_of parallel_safe c cs ++ drop (length (batch_of parallel_safe c cs)) (c ∷ cs) ≡ c ∷ cs
  batch_of-prefix c cs =
      if_each (λ b. b ++ drop (length b) (c ∷ cs) ≡ c ∷ cs) (parallel_safe c) _ _
        (λ safe. take_parallel_safe_batch-prefix (c ∷ cs)) (λ other. refl)

  pub length-batch_of :
      (c : ToolCall) (cs : List ToolCall) → 1 ≤ length (batch_of parallel_safe c cs)
  length-batch_of c cs = elim (Bool-cases (parallel_safe c)) [
    | inl safe ↦ rw safe (omega arith)
    | inr other ↦ rw other (omega arith)
  ]

module _ {E : Type 0} (execute : ℕ → ToolCall → Result Text ToolExecutionResult)
    (parse_json : Text → Option Value)
    (persist : Text → Text → Option Text → Result E ContentBlock) where
  -- The calls one after the other, without batches.
  abbrev pub perform_each : ℕ → List ToolCall → Performed → Result E Performed
  perform_each cursor [] acc = ok acc
  perform_each cursor (c ∷ cs) acc =
      add_result execute parse_json persist acc c
        (execute_tool_call execute parse_json persist (cursor, c))
      >>= λ more. perform_each (cursor + 1) cs more

  perform_each-append :
      (xs ys : List ToolCall) (cursor : ℕ) (acc : Performed)
      → perform_each cursor (xs ++ ys) acc
        ≡ (perform_each cursor xs acc >>= λ more. perform_each (cursor + length xs) ys more)
  perform_each-append [] ys cursor acc = ap (λ n. perform_each n ys acc) (omega arith)
  perform_each-append (x ∷ xs) ys cursor acc =
      bind-cong _ _ _ (λ more.
        perform_each-append xs ys (cursor + 1) more
        ∙ bind-cong (perform_each (cursor + 1) xs more) _ _
            (λ last. ap (λ n. perform_each n ys last) (omega arith)))
      ∙ sym (
          bind_assoc
            (add_result execute parse_json persist acc x
              (execute_tool_call execute parse_json persist (cursor, x)))
            (λ more. perform_each (cursor + 1) xs more)
            (λ more. perform_each (cursor + length (x ∷ xs)) ys more))

  perform_batch_each :
      (cs : List ToolCall) (cursor : ℕ) (acc : Performed)
      → perform_batch execute parse_json persist cursor cs acc ≡ perform_each cursor cs acc
  perform_batch_each [] cursor acc = refl
  perform_batch_each (c ∷ cs) cursor acc =
      bind-cong _ _ _ (λ more. perform_batch_each cs (cursor + 1) more)

  perform_batches_each :
      (parallel_safe : ToolCall → Bool) (fuel cursor : ℕ) (cs : List ToolCall) (acc : Performed)
      → length cs ≤ fuel
      → perform_batches execute parse_json persist cursor (batches_from parallel_safe fuel cs) acc
        ≡ perform_each cursor cs acc
  perform_batches_each parallel_safe fuel cursor [] acc h = refl
  perform_batches_each parallel_safe zero cursor (c ∷ cs) acc h =
      absurd (let bad : ⊥ = omega arith in bad)
  perform_batches_each parallel_safe (suc fuel) cursor (c ∷ cs) acc h =
      let batch = batch_of parallel_safe c cs in
      let rest = drop (length batch) (c ∷ cs) in
      let whole = batch_of-prefix parallel_safe c cs in
      let parts = length-append batch rest in
      let all : length (batch ++ rest) ≡ length (c ∷ cs) = ap length whole in
      let some_taken = length-batch_of parallel_safe c cs in
      bind-cong (perform_batch execute parse_json persist cursor batch acc) _ _ (λ more.
        perform_batches_each parallel_safe fuel (cursor + length batch) rest more (omega arith))
      ∙ ap (λ m. m >>= λ more. perform_each (cursor + length batch) rest more)
          (perform_batch_each batch cursor acc)
      ∙ sym (perform_each-append batch rest cursor acc)
      ∙ ap (λ l. perform_each cursor l acc) whole

  -- The results of the batches are added as those of the calls one after the other, with what the
  -- execution of each call gave in its place.
  pub perform_calls-perform_each :
      (parallel_safe : ToolCall → Bool) (calls : List ToolCall) (acc : Performed)
      → perform_calls execute parse_json persist parallel_safe calls acc ≡ perform_each 0 calls acc
  unfolding perform_calls call_batches
  perform_calls-perform_each parallel_safe calls acc =
      perform_batches_each parallel_safe (length calls) 0 calls acc (omega arith)

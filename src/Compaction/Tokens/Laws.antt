-- ===== src/Compaction/Tokens/Laws.antt =====
-- The estimates stay safe integers.
use qq_bot_v.Prelude.{
  ℕ, ◌≤◌, ◌≡◌, refl, Bool, true, false, Option, none, some, List, [], ◌∷◌, map, keep, leb, arith,
  Text, ok, guard, >>=-eq-ok, ok-injective,
}
use mathlib.Core.Path.{subst}
use qq_bot_v.Prelude.Values.{max_safe_integer}
use qq_bot_v.Ledger.Types.{Message, CompactionPayload, Entry}
use qq_bot_v.Compaction.Tokens.{
  safe_add, EntryEstimate, ContextEstimate, input_tokens_not_safe, estimate_entry_tokens,
  add_estimates, validate_through, behind, estimate_ledger_context_tokens,
}

safe_add-safe : (a b : ℕ) → safe_add a b ≤ max_safe_integer
unfolding safe_add
safe_add-safe a b = ground arith

module _ (stringify_message : Message → Text) (stringify_payload : CompactionPayload → Text) where
  add_estimates-safe :
      (sum : ℕ) (es : List EntryEstimate)
      → sum ≤ max_safe_integer
      → add_estimates stringify_message stringify_payload sum es ≤ max_safe_integer
  add_estimates-safe sum [] h = h
  add_estimates-safe sum (e ∷ es) h =
      add_estimates-safe (safe_add sum e.tokens) es (safe_add-safe sum e.tokens)

  abbrev pub prefix_tokens : Option (Option ℕ × ℕ) → ℕ
  prefix_tokens none = 0
  prefix_tokens (some (through, tokens)) = tokens

  -- An estimate of the context is a safe integer, and with a provider prefix it is at least the
  -- prefix's own count of tokens.
  pub estimate_ledger_context_tokens-safe :
      (es : List Entry) (prefix : Option (Option ℕ × ℕ)) (e : ContextEstimate)
      → estimate_ledger_context_tokens stringify_message stringify_payload es prefix ≡ ok e
      → (e.tokens ≤ max_safe_integer) × (prefix_tokens prefix ≤ e.tokens)
  unfolding estimate_ledger_context_tokens safe_add
  estimate_ledger_context_tokens-safe es none e h =
      let q = ok-injective h in
      (
        subst (λ (e : ContextEstimate). e.tokens ≤ max_safe_integer) q
            (add_estimates-safe 0
              (map (estimate_entry_tokens stringify_message stringify_payload) es) (omega arith)),
        omega arith,
      )
  estimate_ledger_context_tokens-safe es (some (through, input)) e h =
      let (_, safe, h1) = >>=-eq-ok (guard (leb input max_safe_integer) _) _ h in
      let (_, _, h2) =
        >>=-eq-ok (validate_through stringify_message stringify_payload through es) _ h1 in
      let q = ok-injective h2 in
      let rest = add_estimates stringify_message stringify_payload 0 (
        map (estimate_entry_tokens stringify_message stringify_payload)
          (keep (behind stringify_message stringify_payload through) es)) in
      (
        subst (λ (e : ContextEstimate). e.tokens ≤ max_safe_integer) q (safe_add-safe input rest),
        subst (λ (e : ContextEstimate). input ≤ e.tokens) q
            (safe_add-grows input rest (guard-true safe)),
      )
    where
      guard-true : {x : Unit {0}} {b : Bool} → guard b input_tokens_not_safe ≡ ok x → b ≡ true
      guard-true {b = true} h = refl
      guard-true {b = false} h = cc

      safe_add-grows : (a b : ℕ) → leb a max_safe_integer ≡ true → a ≤ safe_add a b
      safe_add-grows a b h = ground arith

-- ===== src/Compaction/Units.antt =====
-- Atomic units of a history (src/agent/compaction.ts, buildAtomicUnits): a message alone, or an
-- assistant message with the results of all its tool calls.
pub mod Laws
use qq_bot_v.Prelude.{
  ℕ, zero, suc, ◌+◌, Bool, true, false, ◌&&◌, Option, none, some, List, [], ◌∷◌, ◌++◌, ◌==◌,
  text_eq, length, take, drop, if◌then◌else◌,
}
use qq_bot_v.Ledger.Types.{Message, user, assistant, tool, ToolCall, Role, role}

pub record AtomicUnit (T : Type 0) : Type 0 where
  pub items : List T
  pub first_role : Role
  pub tokens : ℕ

module _ {T : Type 0} (get_message : T → Message) (get_tokens : T → ℕ) where
  abbrev sum_tokens : List T → ℕ
  sum_tokens [] = 0
  sum_tokens (t ∷ ts) = get_tokens t + sum_tokens ts

  abbrev pub is_result_of : Message → ToolCall → Bool
  is_result_of (tool id _) call = id == call.id
  is_result_of _ call = false

  -- The length test and the test of each slice position against the expected id.
  abbrev pub results_match : List ToolCall → List T → Bool
  results_match [] [] = true
  results_match (c ∷ cs) (t ∷ ts) = is_result_of (get_message t) c && results_match cs ts
  results_match _ _ = false

  abbrev pub unit_of : T → List T → AtomicUnit T
  unit_of item results = record {
    items = item ∷ results;
    first_role = role (get_message item);
    tokens = sum_tokens (item ∷ results);
  }

  abbrev push_unit : AtomicUnit T → Option (List (AtomicUnit T)) → Option (List (AtomicUnit T))
  push_unit u none = none
  push_unit u (some us) = some (u ∷ us)

  -- One round of the loop; `next` is the loop on what follows.
  abbrev round :
      (List T → Option (List (AtomicUnit T))) → Message → T → List T → Option (List (AtomicUnit T))
  round next (tool _ _) item rest = none
  round next (user _) item rest = push_unit (unit_of item []) (next rest)
  round next (assistant _ [] _) item rest = push_unit (unit_of item []) (next rest)
  round next (assistant _ (c ∷ cs) _) item rest =
      let n = length (c ∷ cs) in
      let after = push_unit (unit_of item (take n rest)) (next (drop n rest)) in
      if results_match (c ∷ cs) (take n rest) then after else none

  -- Each round takes an item at least, so the number of items is fuel enough.
  build_units : ℕ → List T → Option (List (AtomicUnit T))
  build_units fuel [] = some []
  build_units zero (item ∷ rest) = none
  build_units (suc fuel) (item ∷ rest) = round (build_units fuel) (get_message item) item rest

  unfoldable pub build_atomic_units : List T → Option (List (AtomicUnit T))
  unfolding build_units
  build_atomic_units items = build_units (length items) items

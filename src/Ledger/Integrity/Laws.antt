-- ===== src/Ledger/Integrity/Laws.antt =====
-- A history that the integrity check accepts falls into atomic units.
use qq_bot_v.Prelude.{
  ℕ, zero, suc, ◌+◌, ◌≡◌, ◌≤◌, refl, ap, All, Bool, true, some, List, [], ◌∷◌, ◌++◌, map, arith,
  text_eq, text_beq_iff, Text, is_empty, drop, take, get_elem?, length, length-drop, length-map,
  take-append-drop, if◌then◌else◌,
}
use mathlib.Core.Path.{subst}
use qq_bot_v.Ledger.Types.{Message, user, assistant, tool, ToolCall, ToolContent}
use qq_bot_v.Ledger.Integrity.{
  Validation, check_call, check_calls, validate_from, validate_messages,
}
use qq_bot_v.Compaction.Units.{AtomicUnit, results_match, unit_of, build_atomic_units}
use qq_bot_v.Compaction.Units.Laws.{
  flatten, IsAtomic, IsClosedBy, results_match-HasResults, build_atomic_units_complete,
}
use qq_bot_v.Ledger.Integrity.Clean.{IsClean, check_call-IsClean, check_stray_result-dirty}

module _ (json_parses : Text → Bool) where
  module _ {T : Type 0} (get_message : T → Message) (get_tokens : T → ℕ) where
    -- The item at an offset where the messages hold a result of the call.
    drop_at :
        (items : List T) (offset : ℕ) (m : Message)
        → get_elem? (map get_message items) offset ≡ some m
        → (item : T) × (get_message item ≡ m) × (drop offset items ≡ item ∷ drop (suc offset) items)
    drop_at [] offset m h = cc
    drop_at (x ∷ xs) zero m h = (x, cc, refl)
    drop_at (x ∷ xs) (suc offset) m h = drop_at xs offset m h

    check_call-found :
        (c : ToolCall) (index offset : ℕ) (rest : List T) (v : Validation)
        → IsClean
            (check_call json_parses c index offset (get_elem? (map get_message rest) offset) v)
        → IsClean v
          × (content : ToolContent) × (get_elem? (map get_message rest) offset
              ≡ some (tool c.id content))
    check_call-found c index offset rest v h =
        let (clean, found) = check_call-IsClean json_parses c index offset _ v h in
        (clean, found.0, found.1)

    check_calls-IsClean :
        (calls : List ToolCall) (index offset : ℕ) (rest : List T) (v : Validation)
        → IsClean (check_calls json_parses calls index offset (map get_message rest) v)
        → IsClean v
          × (results_match get_message get_tokens calls (take (length calls) (drop offset rest))
              ≡ true)
    unfolding check_calls
    check_calls-IsClean [] index offset rest v h = (h, refl)
    check_calls-IsClean (c ∷ cs) index offset rest v h =
        let (clean, later) = check_calls-IsClean cs index (offset + 1) rest _ h in
        let (before, content, found) = check_call-found c index offset rest v clean in
        let (item, is_result, shape) = drop_at rest offset _ found in
        let e : drop (offset + 1) rest ≡ drop (suc offset) rest =
          ap (λ n. drop n rest) {y = suc offset} (omega arith) in
        let self = (text_beq_iff c.id c.id).1 refl in
        let later' =
          subst (λ d. results_match get_message get_tokens cs (take (length cs) d) ≡ true) e
            later in
        (before, rw (shape, is_result) (rw self later'))

    map-drop : (n : ℕ) (xs : List T) → drop n (map get_message xs) ≡ map get_message (drop n xs)
    map-drop zero xs = refl
    map-drop (suc n) [] = refl
    map-drop (suc n) (x ∷ xs) = map-drop n xs

    abbrev Falls : List T → Type 0
    Falls items =
        (us : List (AtomicUnit T)) × All (IsAtomic get_message get_tokens) us × (flatten us ≡ items)

    push_Falls :
        (item : T) (results more : List T)
        → IsClosedBy get_message get_tokens (get_message item) results
        → Falls more
        → Falls (item ∷ results ++ more)
    push_Falls item results more closed (us, h, e) = (
      unit_of get_message get_tokens item results ∷ us,
      ((item, results, refl, closed), h),
      ap (λ t. item ∷ results ++ t) e,
    )

    kept :
        (content : Text) (index : ℕ) (v : Validation)
        → IsClean (if is_empty content then v else record v { warnings = v.warnings ++ index ∷ [] })
        → IsClean v
    kept [] index v h = h
    kept (c ∷ content) index v h = h

    abbrev FallsBelow : ℕ → Type 0
    FallsBelow fuel =
        (index : ℕ) (items : List T) (messages : List Message) (v : Validation)
        → messages ≡ map get_message items
        → length items ≤ fuel
        → IsClean (validate_from json_parses fuel index messages v)
        → IsClean v × Falls items

    validate_round-Falls :
        (fuel index : ℕ) (m : Message) (x : T) (xs : List T) (v : Validation)
        → FallsBelow fuel
        → get_message x ≡ m
        → length xs ≤ fuel
        → IsClean (validate_from json_parses (suc fuel) index (m ∷ map get_message xs) v)
        → IsClean v × Falls (x ∷ xs)
    unfolding validate_from
    validate_round-Falls fuel index (user content) x xs v below e enough h =
        let (clean, falls) = below (index + 1) xs (map get_message xs) v refl enough h in
        (clean, push_Falls x [] xs (rw e refl) falls)
    validate_round-Falls fuel index (tool id content) x xs v below e enough h =
        let (dirty, falls) = below (index + 1) xs (map get_message xs) _ refl enough h in
        absurd (check_stray_result-dirty json_parses id content index v dirty)
    validate_round-Falls fuel index (assistant content calls native) x xs v below e enough h =
        let n = length calls in
        let (checked, falls) =
          below (index + 1 + n) (drop n xs) (drop n (map get_message xs)) _ (map-drop n xs)
            (omega (arith, length-drop n xs)) h in
        let (clean, matched) = check_calls-IsClean calls index 0 xs _ checked in
        (
          kept content index v clean,
          subst Falls (ap (λ t. x ∷ t) (take-append-drop n xs)) (
              push_Falls x (take n xs) (drop n xs)
                (rw e (results_match-HasResults get_message get_tokens calls (take n xs) matched))
                falls),
        )

    validate_from-Falls : (fuel : ℕ) → FallsBelow fuel
    unfolding validate_from
    validate_from-Falls fuel index [] messages v e enough h =
        (rw (e, validate_from) at h, ([], tt, refl))
    validate_from-Falls zero index (x ∷ xs) messages v e enough h = absurd (omega arith)
    validate_from-Falls (suc fuel) index (x ∷ xs) messages v e enough h =
        validate_round-Falls fuel index (get_message x) x xs v (validate_from-Falls fuel) refl
          (omega arith)
          (subst (λ ms. IsClean (validate_from json_parses (suc fuel) index ms v)) e h)

    -- A history in which the check finds no error can be cut into atomic units.
    pub validate_messages-units :
        (items : List T)
        → (validate_messages json_parses (map get_message items)).errors ≡ []
        → (us : List (AtomicUnit T)) × (build_atomic_units get_message get_tokens items ≡ some us)
    unfolding validate_messages
    validate_messages-units items h =
        let (us, atomic, same) =
          (validate_from-Falls (length (map get_message items)) 0 items (map get_message items) _
            refl (omega (arith, length-map get_message items)) h).1 in
        (
          us,
          subst (λ t. build_atomic_units get_message get_tokens t ≡ some us) same
              (build_atomic_units_complete get_message get_tokens us atomic),
        )

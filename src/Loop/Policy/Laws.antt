-- ===== src/Loop/Policy/Laws.antt =====
-- The loop does not go on for ever without progress, and its counters stay within their limits.
use qq_bot_v.Prelude.{
  ℕ, zero, suc, ◌+◌, ◌-◌, ◌≤◌, ◌<◌, ◌≡◌, refl, inl, inr, max, Bool, true, false, ◌&&◌, ◌||◌, ltb,
  leb, Option, none, some, List, [], ◌∷◌, length, arith, Bool-cases,
}
use mathlib.Core.Path.{subst}
use qq_bot_v.Loop.Policy.{
  LoopPolicyInput, LoopPolicyDecision, Action, continue_, ContinueReason, tool_immediate,
  tool_no_progress, no_demand, ToolContinuationPolicy, immediate, backoff, wait_event_tool,
  stop_tool, wait_attention_tool, state, count_no_progress, after_tools, with_tools,
  decide_loop_policy,
}

abbrev pub continues : Action → Bool
continues (continue_ _) = true
continues _ = false

-- A round whose tools made no progress, and after which nothing demands more.
pub record Idle (i : LoopPolicyInput) : Type 0 where
  pub nothing_demanded : i.demand ≡ no_demand
  pub no_progress : i.made_tool_progress ≡ false

-- `k` times `c + 1`.
abbrev times : ℕ → ℕ → ℕ
times zero c = 0
times (suc k) c = (c + 1) + times k c

-- How many idle rounds are left from the counters, at the limits `m` and `c`.
abbrev pub rounds_left : ℕ → ℕ → ℕ → ℕ → ℕ
rounds_left m c correction no_progress = times (max 1 m - no_progress) c + (c - correction)

times-less : (a b c : ℕ) → a ≡ suc b → times a c ≡ (c + 1) + times b c
times-less a b c e = rw e refl

abbrev left_in : LoopPolicyInput → ℕ
left_in i =
    rounds_left i.max_no_progress_rounds i.max_recoverable_correction_rounds
      i.recoverable_correction_rounds i.no_progress_rounds

abbrev left_after : LoopPolicyInput → LoopPolicyDecision → ℕ
left_after i d =
    rounds_left i.max_no_progress_rounds i.max_recoverable_correction_rounds
      d.recoverable_correction_rounds d.no_progress_rounds

no_progress-decreases :
    (i : LoopPolicyInput) (d : LoopPolicyDecision)
    → d.no_progress_rounds ≡ i.no_progress_rounds + 1
    → i.no_progress_rounds + 1 < max 1 i.max_no_progress_rounds
    → left_after i d < left_in i
no_progress-decreases i d e lt =
    let t =
      times-less (max 1 i.max_no_progress_rounds - i.no_progress_rounds)
        (max 1 i.max_no_progress_rounds - (i.no_progress_rounds + 1))
        i.max_recoverable_correction_rounds (omega arith) in
    rw (e, t) (omega arith)

count_no_progress-decreases :
    (i : LoopPolicyInput) (r : ContinueReason) (correction : ℕ)
    → continues (count_no_progress i r correction).action ≡ true
    → left_after i (count_no_progress i r correction) < left_in i
count_no_progress-decreases i r correction h =
    elim (Bool-cases (leb (max 1 i.max_no_progress_rounds) (i.no_progress_rounds + 1))) [
      | inl reached ↦ absurd (let h' : false ≡ true = rw reached at h in cc)
      | inr below ↦ rw below (
          no_progress-decreases i
            (state i (continue_ r) (some correction) (some (i.no_progress_rounds + 1))) refl
            (ground arith))
    ]

after_tools-decreases :
    (i : LoopPolicyInput) (correction : ℕ) (o : Option ToolContinuationPolicy)
    → Idle i
    → continues (after_tools i correction o).action ≡ true
    → left_after i (after_tools i correction o) < left_in i
unfolding after_tools
after_tools-decreases i correction (some wait_event_tool) idle h = cc
after_tools-decreases i correction (some stop_tool) idle h = cc
after_tools-decreases i correction (some wait_attention_tool) idle h = cc
after_tools-decreases i correction (some backoff) idle h = cc
after_tools-decreases i correction (some immediate) idle h =
    rw idle.no_progress
      (count_no_progress-decreases i tool_immediate correction (rw idle.no_progress at h))
after_tools-decreases i correction none idle h =
    rw (idle.no_progress, idle.nothing_demanded)
      (count_no_progress-decreases i tool_no_progress correction
        (rw (idle.no_progress, idle.nothing_demanded) at h))

with_tools-decreases :
    (i : LoopPolicyInput)
    → Idle i
    → continues (with_tools i).action ≡ true
    → left_after i (with_tools i) < left_in i
unfolding with_tools
with_tools-decreases i idle h =
    let continuing =
      i.recoverable_tool_failure
      || (ltb 0 i.recoverable_correction_rounds && i.only_help_tool_calls) in
    elim (Bool-cases
      (continuing && ltb i.recoverable_correction_rounds i.max_recoverable_correction_rounds)) [
        | inl correcting ↦ rw correcting (ground (arith, correcting))
        | inr not_correcting ↦
            rw not_correcting
              (after_tools-decreases i _ i.tool_continuation idle (rw not_correcting at h))
      ]

-- When the loop continues after an idle round, fewer idle rounds are left to it than before, by a
-- measure of its two counters and their limits.
pub decide_loop_policy-decreases :
    (i : LoopPolicyInput)
    → Idle i
    → continues (decide_loop_policy i).action ≡ true
    → rounds_left i.max_no_progress_rounds i.max_recoverable_correction_rounds
        (decide_loop_policy i).recoverable_correction_rounds
        (decide_loop_policy i).no_progress_rounds
      < rounds_left i.max_no_progress_rounds i.max_recoverable_correction_rounds
          i.recoverable_correction_rounds i.no_progress_rounds
unfolding decide_loop_policy
decide_loop_policy-decreases i idle h =
    ground (arith, with_tools-decreases i idle, idle.nothing_demanded)

-- Idle rounds in a row, at the limits `m` and `c`, each of which starts from the counters that the
-- one before it has left, and after each of which the loop continues.
pub record Follows (m c correction no_progress : ℕ) (i : LoopPolicyInput) : Type 0 where
  pub max_no_progress_is : i.max_no_progress_rounds ≡ m
  pub max_correction_is : i.max_recoverable_correction_rounds ≡ c
  pub correction_is : i.recoverable_correction_rounds ≡ correction
  pub no_progress_is : i.no_progress_rounds ≡ no_progress
  pub idle : Idle i
  pub going_on : continues (decide_loop_policy i).action ≡ true

abbrev pub IdleRun : ℕ → ℕ → ℕ → ℕ → List LoopPolicyInput → Type 0
IdleRun m c correction no_progress [] = Unit
IdleRun m c correction no_progress (i ∷ is) =
    Follows m c correction no_progress i
    × IdleRun m c (decide_loop_policy i).recoverable_correction_rounds
        (decide_loop_policy i).no_progress_rounds is

-- Idle rounds in a row, each starting from the counters of the one before and each followed by
-- the decision to continue, are no more than the measure of the counters at the start, which the
-- limits bound.
pub IdleRun-length :
    (m c correction no_progress : ℕ) (is : List LoopPolicyInput)
    → IdleRun m c correction no_progress is
    → length is ≤ rounds_left m c correction no_progress
IdleRun-length m c correction no_progress [] run = omega arith
IdleRun-length m c correction no_progress (i ∷ is) (f, run) =
    let rest =
      IdleRun-length m c (decide_loop_policy i).recoverable_correction_rounds
        (decide_loop_policy i).no_progress_rounds is run in
    let less = decide_loop_policy-decreases i f.idle f.going_on in
    let d = decide_loop_policy i in
    let after =
      λ (x : ℕ) (y : ℕ). rounds_left x y d.recoverable_correction_rounds d.no_progress_rounds in
    let less' : after m c < rounds_left m c correction no_progress =
      subst (λ x. after m c < rounds_left m c correction x) f.no_progress_is
        (subst (λ x. after m c < rounds_left m c x i.no_progress_rounds) f.correction_is
          (subst
            (λ x. after m x < rounds_left m x i.recoverable_correction_rounds i.no_progress_rounds)
            f.max_correction_is
            (subst
              (λ x.
                after x i.max_recoverable_correction_rounds
                < rounds_left x i.max_recoverable_correction_rounds i.recoverable_correction_rounds
                    i.no_progress_rounds)
              f.max_no_progress_is less))) in
    omega (arith, rest, less')

-- When the rounds of corrections are within their limit and the rounds without progress below
-- theirs (at least 1), they still are after the decision.
pub decide_loop_policy-bounds :
    (i : LoopPolicyInput)
    → i.recoverable_correction_rounds ≤ i.max_recoverable_correction_rounds
    → i.no_progress_rounds < max 1 i.max_no_progress_rounds
    → ((decide_loop_policy i).recoverable_correction_rounds ≤ i.max_recoverable_correction_rounds)
      × ((decide_loop_policy i).no_progress_rounds < max 1 i.max_no_progress_rounds)
unfolding decide_loop_policy with_tools after_tools
decide_loop_policy-bounds i low few = ground arith

-- ===== src/Examples/Loop.antt =====
-- The theorems on the loop's policy at idle rounds with a limit of two.
use qq_bot_v.Prelude.{ℕ, ◌≤◌, ◌<◌, refl, max, true, false, none, [], ◌∷◌, length, arith}
use qq_bot_v.Loop.Policy.{LoopPolicyInput, no_demand, decide_loop_policy}
use qq_bot_v.Loop.Policy.Laws.{
  rounds_left, decide_loop_policy-decreases, IdleRun-length, decide_loop_policy-bounds,
}

abbrev idle_round : ℕ → LoopPolicyInput
idle_round n = record {
  ran_round = true;
  stop_requested = false;
  tool_call_count = 1;
  demand = no_demand;
  recoverable_tool_failure = false;
  only_help_tool_calls = false;
  made_tool_progress = false;
  tool_continuation = none;
  recoverable_correction_rounds = 0;
  max_recoverable_correction_rounds = 1;
  no_progress_rounds = n;
  max_no_progress_rounds = 3;
}

decide_loop_policy-decreases_example :
    rounds_left 3 1
      (decide_loop_policy (idle_round 0)).recoverable_correction_rounds
      (decide_loop_policy (idle_round 0)).no_progress_rounds
    < rounds_left 3 1 0 0
unfolding decide_loop_policy
decide_loop_policy-decreases_example =
    decide_loop_policy-decreases (idle_round 0)
      (record { nothing_demanded = refl; no_progress = refl }) refl

IdleRun-length_example : length (idle_round 0 ∷ idle_round 1 ∷ []) ≤ rounds_left 3 1 0 0
unfolding decide_loop_policy
IdleRun-length_example = IdleRun-length 3 1 0 0 (idle_round 0 ∷ idle_round 1 ∷ []) (
  record {
    max_no_progress_is = refl;
    max_correction_is = refl;
    correction_is = refl;
    no_progress_is = refl;
    idle = record { nothing_demanded = refl; no_progress = refl };
    going_on = refl;
  },
  (
    record {
      max_no_progress_is = refl;
      max_correction_is = refl;
      correction_is = refl;
      no_progress_is = refl;
      idle = record { nothing_demanded = refl; no_progress = refl };
      going_on = refl;
    },
    tt,
  ),
)

decide_loop_policy-bounds_example :
    ((decide_loop_policy (idle_round 1)).recoverable_correction_rounds ≤ 1)
    × ((decide_loop_policy (idle_round 1)).no_progress_rounds < max 1 3)
decide_loop_policy-bounds_example =
    decide_loop_policy-bounds (idle_round 1) (omega arith) (omega arith)

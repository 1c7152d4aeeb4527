-- ===== src/Loop/Policy.antt =====
-- What the loop does after a round (src/agent/loop-policy.ts: decideLoopPolicy, state).
pub mod Laws
use qq_bot_v.Prelude.{
  ℕ, ◌+◌, Bool, true, false, ◌&&◌, ◌||◌, not, max, ltb, leb, Option, none, some, if◌then◌else◌,
}

pub data ToolContinuationPolicy : Type 0 where
  immediate wait_attention_tool wait_event_tool backoff stop_tool : ToolContinuationPolicy

pub data LoopDemand : Type 0 where
  no_demand continuation attention : LoopDemand

pub record LoopPolicyInput : Type 0 where
  pub ran_round : Bool
  pub stop_requested : Bool
  pub tool_call_count : ℕ
  pub demand : LoopDemand
  pub recoverable_tool_failure : Bool
  pub only_help_tool_calls : Bool
  pub made_tool_progress : Bool
  pub tool_continuation : Option ToolContinuationPolicy
  pub recoverable_correction_rounds : ℕ
  pub max_recoverable_correction_rounds : ℕ
  pub no_progress_rounds : ℕ
  pub max_no_progress_rounds : ℕ

pub data WaitReason : Type 0 where
  no_actionable_context tool_external_started tool_direction_complete : WaitReason
  no_progress_limit direction_complete : WaitReason

pub data ContinueReason : Type 0 where
  recoverable_tool_correction tool_immediate tool_progress action_correction : ContinueReason
  tool_no_progress attention_pending : ContinueReason

-- `wait_attention` has the one reason `tool_backoff` and the one timeout `action_retry`.
pub data Action : Type 0 where
  wait_event : WaitReason → Action
  stop : Action
  continue_ : ContinueReason → Action
  wait_attention : Action

pub record LoopPolicyDecision : Type 0 where
  pub action : Action
  pub recoverable_correction_rounds : ℕ
  pub no_progress_rounds : ℕ

abbrev or_input : Option ℕ → ℕ → ℕ
or_input none n = n
or_input (some m) n = m

-- `state`, whose overrides are `none` where the source leaves them out.
abbrev pub state : LoopPolicyInput → Action → Option ℕ → Option ℕ → LoopPolicyDecision
state i action correction no_progress = record {
  action = action;
  recoverable_correction_rounds = or_input correction i.recoverable_correction_rounds;
  no_progress_rounds = or_input no_progress i.no_progress_rounds;
}

abbrev pub is_attention : LoopDemand → Bool
is_attention attention = true
is_attention _ = false

abbrev pub is_continuation : LoopDemand → Bool
is_continuation continuation = true
is_continuation _ = false

-- The count of rounds without progress goes up, and the loop waits once it reaches the limit.
abbrev pub count_no_progress : LoopPolicyInput → ContinueReason → ℕ → LoopPolicyDecision
count_no_progress i reason correction =
    let rounds = i.no_progress_rounds + 1 in
    if leb (max 1 i.max_no_progress_rounds) rounds
    then state i (wait_event no_progress_limit) (some correction) (some 0)
    else state i (continue_ reason) (some correction) (some rounds)

-- After the tests on `toolContinuation` that end in a wait, for `immediate` and for none.
abbrev pub on_immediate : LoopPolicyInput → ℕ → LoopPolicyDecision
on_immediate i correction =
    if i.made_tool_progress
    then state i (continue_ tool_immediate) (some correction) (some 0)
    else count_no_progress i tool_immediate correction

abbrev pub on_default : LoopPolicyInput → ℕ → LoopPolicyDecision
on_default i correction =
    if i.made_tool_progress
    then state i (continue_ tool_progress) (some correction) (some 0)
    else if is_continuation i.demand
    then state i (continue_ action_correction) (some correction) (some 0)
    else count_no_progress i tool_no_progress correction

unfoldable pub after_tools :
    LoopPolicyInput → ℕ → Option ToolContinuationPolicy → LoopPolicyDecision
after_tools i correction (some wait_event_tool) =
    state i (wait_event tool_external_started) (some 0) (some 0)
after_tools i correction (some stop_tool) =
    state i (wait_event tool_direction_complete) (some correction) (some 0)
after_tools i correction (some wait_attention_tool) =
    state i (wait_event tool_direction_complete) (some correction) (some 0)
after_tools i correction (some backoff) = state i wait_attention (some correction) none
after_tools i correction (some immediate) = on_immediate i correction
after_tools i correction none = on_default i correction

-- A round with tool calls.
unfoldable pub with_tools : LoopPolicyInput → LoopPolicyDecision
unfolding after_tools
with_tools i =
    let rounds = i.recoverable_correction_rounds in
    let continuing = i.recoverable_tool_failure || (ltb 0 rounds && i.only_help_tool_calls) in
    let correction =
      if not i.recoverable_tool_failure && not i.only_help_tool_calls then 0 else rounds in
    if continuing && ltb rounds i.max_recoverable_correction_rounds
    then state i (continue_ recoverable_tool_correction) (some (rounds + 1)) none
    else after_tools i correction i.tool_continuation

-- A round without tool calls.
abbrev pub without_tools : LoopPolicyInput → LoopPolicyDecision
without_tools i =
    if is_continuation i.demand
    then state i (continue_ action_correction) (some i.recoverable_correction_rounds) (some 0)
    else state i (wait_event direction_complete) (some 0) (some 0)

unfoldable pub decide_loop_policy : LoopPolicyInput → LoopPolicyDecision
unfolding with_tools
decide_loop_policy i =
    if not i.ran_round
    then if i.stop_requested
      then state i stop none none
      else state i (wait_event no_actionable_context) none (some 0)
    else if i.stop_requested
    then state i stop none none
    else if is_attention i.demand
    then state i (continue_ attention_pending) none (some 0)
    else if ltb 0 i.tool_call_count
    then with_tools i
    else without_tools i

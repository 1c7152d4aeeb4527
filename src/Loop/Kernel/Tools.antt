-- ===== src/Loop/Kernel/Tools.antt =====
-- The tool calls of a round, in batches that run together (src/agent/react-kernel.ts). A call is
-- executed with its position among the calls; `parallel_safe` is the test isParallelSafeToolCall.
use qq_bot_v.Prelude.{
  ℕ, zero, suc, ◌+◌, Bool, true, Option, none, some, List, [], ◌∷◌, ◌++◌, map, ◌==◌, text_eq, Text,
  text, is_blank, is_empty, take, drop, length, if◌then◌else◌, Result, ok, err, ◌>>=◌,
}
use qq_bot_v.Prelude.Json.{json_object, json_string}
use qq_bot_v.Prelude.Values.{Value, string, prop}
use qq_bot_v.Ledger.Types.{Message, ToolCall, ContentBlock}
use qq_bot_v.Ledger.Runtime.{ConversationRef}
use qq_bot_v.Loop.Kernel.Durable.{LiveContent, live_plain, to_durable_agent_message}

pub data ToolContinuation : Type 0 where
  immediate wait_attention wait_event backoff stop_loop : ToolContinuation

pub data ToolEffect : Type 0 where
  message_sent : ConversationRef → Bool → ToolEffect
  inbox_read : Text → ℕ → ToolEffect

-- `ToolExecutionOutcome`.
pub record ExecutionOutcome : Type 0 where
  pub succeeded : Bool
  pub code : Option Text
  pub progress : Option Bool
  pub continuation : Option ToolContinuation
  pub continuation_detail : Option Text
  pub novelty_key : Option Text

pub record ToolExecutionResult : Type 0 where
  pub content : LiveContent
  pub outcome : Option ExecutionOutcome
  pub effects : List ToolEffect

pub record ReactToolEffect : Type 0 where
  pub tool_call_id : Text
  pub tool_name : Text
  pub effect : ToolEffect

pub record ReactToolOutcome : Type 0 where
  pub tool_call_id : Text
  pub requested_tool_name : Text
  pub tool_name : Text
  pub succeeded : Bool
  pub code : Option Text
  pub progress : Bool
  pub continuation : Option ToolContinuation
  pub continuation_detail : Option Text
  pub novelty_key : Option Text

abbrev target_or : Text → Value → Text
target_or name (string target) = if is_blank target then name else target
target_or name _ = name

-- `invoke` stands for the tool that its arguments name.
unfoldable pub resolve_effective_tool_name : ToolCall → Text
resolve_effective_tool_name call =
    if call.name == text "invoke"
    then target_or call.name (prop (text "tool") call.args)
    else call.name

-- The test `value ? ... : ...` of a text.
abbrev non_empty : Option Text → Option Text
non_empty none = none
non_empty (some s) = if is_empty s then none else some s

abbrev detail_of : Option ToolContinuation → Option Text → Option Text
detail_of none detail = none
detail_of (some c) none = none
detail_of (some c) (some s) = if is_empty s then none else some (take 1000 s)

abbrev progress_of : Bool → Option Bool → Bool
progress_of succeeded none = succeeded
progress_of succeeded (some p) = p

unfoldable pub outcome_of : ToolCall → Option ExecutionOutcome → ReactToolOutcome
unfolding resolve_effective_tool_name
outcome_of call none = record {
  tool_call_id = call.id;
  requested_tool_name = call.name;
  tool_name = resolve_effective_tool_name call;
  succeeded = true;
  code = none;
  progress = true;
  continuation = none;
  continuation_detail = none;
  novelty_key = none;
}
outcome_of call (some o) = record {
  tool_call_id = call.id;
  requested_tool_name = call.name;
  tool_name = resolve_effective_tool_name call;
  succeeded = o.succeeded;
  code = non_empty o.code;
  progress = progress_of o.succeeded o.progress;
  continuation = o.continuation;
  continuation_detail = detail_of o.continuation o.continuation_detail;
  novelty_key = non_empty o.novelty_key;
}

unfoldable pub effects_of : ToolCall → List ToolEffect → List ReactToolEffect
unfolding resolve_effective_tool_name
effects_of call [] = []
effects_of call (e ∷ es) =
    record { tool_call_id = call.id; tool_name = resolve_effective_tool_name call; effect = e }
    ∷ effects_of call es

-- The result of a call that threw, with the error's message.
unfoldable pub failed_result : Text → ToolExecutionResult
failed_result message = record {
  content = live_plain (
      json_object (
        (text "ok", text "false")
        ∷ (text "code", json_string (text "execution_failed"))
        ∷ (text "error", json_string (text "Tool execution failed: " ++ message))
        ∷ []));
  outcome = none;
  effects = [];
}

-- What the calls so far add to the round.
pub record Performed : Type 0 where
  pub effects : List ReactToolEffect
  pub outcomes : List ReactToolOutcome
  pub messages : List Message

-- `batch`, a call with its position, and what `Promise.all` gives for it.
abbrev pub numbered : ℕ → List ToolCall → List (ℕ × ToolCall)
numbered i [] = []
numbered i (c ∷ cs) = (i, c) ∷ numbered (i + 1) cs

module _ (parallel_safe : ToolCall → Bool) where
  abbrev pub take_parallel_safe_batch : List ToolCall → List ToolCall
  take_parallel_safe_batch [] = []
  take_parallel_safe_batch (c ∷ cs) =
      let rest = take_parallel_safe_batch cs in if parallel_safe c then c ∷ rest else []

  -- The batch that starts with a call.
  abbrev pub batch_of : ToolCall → List ToolCall → List ToolCall
  batch_of c cs = if parallel_safe c then take_parallel_safe_batch (c ∷ cs) else c ∷ []

  -- The batches of the loop over the calls, which depend on the calls alone. A batch has a call at
  -- least, so their number is fuel enough.
  abbrev pub batches_from : ℕ → List ToolCall → List (List ToolCall)
  batches_from fuel [] = []
  batches_from zero (c ∷ cs) = []
  batches_from (suc fuel) (c ∷ cs) =
      let batch = batch_of c cs in batch ∷ batches_from fuel (drop (length batch) (c ∷ cs))

  unfoldable pub call_batches : List ToolCall → List (List ToolCall)
  call_batches calls = batches_from (length calls) calls

-- `execute` says what the execution of each call gave in this round, by the place of the call. The
-- effects of the tools themselves, and the order in which those of a batch come, are outside.
module _ {E : Type 0} (execute : ℕ → ToolCall → Result Text ToolExecutionResult)
    (parse_json : Text → Option Value)
    (persist : Text → Text → Option Text → Result E ContentBlock) where
  abbrev or_failed : Result Text ToolExecutionResult → ToolExecutionResult
  or_failed (ok r) = r
  or_failed (err message) = failed_result message

  abbrev pub execute_tool_call : ℕ × ToolCall → ToolExecutionResult
  execute_tool_call p = or_failed (execute p.0 p.1)

  -- The loop over the results of a batch.
  abbrev pub add_result : Performed → ToolCall → ToolExecutionResult → Result E Performed
  add_result acc call r = to_durable_agent_message persist parse_json call.id r.content >>= λ m.
      ok (record {
        effects = acc.effects ++ effects_of call r.effects;
        outcomes = acc.outcomes ++ outcome_of call r.outcome ∷ [];
        messages = acc.messages ++ m ∷ [];
      })

  abbrev pub add_results : Performed → List (ToolCall × ToolExecutionResult) → Result E Performed
  add_results acc [] = ok acc
  add_results acc ((call, r) ∷ rs) = add_result acc call r >>= λ more. add_results more rs

  -- A batch is executed before its results are added.
  abbrev pub perform_batch : ℕ → List ToolCall → Performed → Result E Performed
  perform_batch cursor batch acc =
      add_results acc (map (λ p. (p.1, execute_tool_call p)) (numbered cursor batch))

  -- The loop over the batches.
  abbrev pub perform_batches : ℕ → List (List ToolCall) → Performed → Result E Performed
  perform_batches cursor [] acc = ok acc
  perform_batches cursor (batch ∷ batches) acc = perform_batch cursor batch acc >>= λ more.
      perform_batches (cursor + length batch) batches more

  unfoldable pub perform_calls : (ToolCall → Bool) → List ToolCall → Performed → Result E Performed
  unfolding call_batches
  perform_calls parallel_safe calls acc = perform_batches 0 (call_batches parallel_safe calls) acc

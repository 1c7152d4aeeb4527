-- ===== src/Loop/Kernel/Round.antt =====
-- The result of a round (src/agent/react-kernel.ts: runReactRound).
use qq_bot_v.Prelude.{
  ℕ, Bool, not, ◌&&◌, Option, List, [], ◌∷◌, Text, is_blank, length, ◌==◌, nat_eq, Result, ok, err,
  ◌>>=◌,
}
use qq_bot_v.Prelude.Values.{Value}
use qq_bot_v.Ledger.Types.{Message, assistant, ToolCall, ContentBlock}
use qq_bot_v.Loop.Kernel.{
  LlmCallOutput, Answers, RoundError, durable_failed, sum_tokens_used, completions_of,
}
use qq_bot_v.Loop.Kernel.Tools.{
  ToolExecutionResult, ReactToolEffect, ReactToolOutcome, Performed, perform_calls,
}

pub record ReactRoundResult : Type 0 where
  pub input_tokens : Option ℕ
  pub context_window_tokens : ℕ
  pub tokens_used : ℕ
  pub tool_call_count : ℕ
  pub effects : List ReactToolEffect
  pub messages_to_append : List Message
  pub completions : List LlmCallOutput
  pub assistant_text_only : Bool
  pub tool_outcomes : List ReactToolOutcome

-- The text of the answer is dropped.
abbrev pub call_message : LlmCallOutput → List Message
call_message c = elim c.tool_calls [ [] ↦ [] | _ ↦ assistant [] c.tool_calls c.native_blocks ∷ [] ]

abbrev pub round_result : List LlmCallOutput → LlmCallOutput → Performed → ReactRoundResult
round_result completions c p = record {
  input_tokens = c.usage.input_tokens;
  context_window_tokens = c.context_window_tokens;
  tokens_used = sum_tokens_used completions;
  tool_call_count = length c.tool_calls;
  effects = p.effects;
  messages_to_append = p.messages;
  completions = completions;
  assistant_text_only = length c.tool_calls == 0 && not (is_blank c.content);
  tool_outcomes = p.outcomes;
}

abbrev pub lift_durable : {E : Type 0} → Result E Performed → Result (RoundError E) Performed
lift_durable (ok p) = ok p
lift_durable (err e) = err (durable_failed e)

module _ {E : Type 0} (chat : Option ℕ → ℕ → Result E LlmCallOutput)
    (parallel_safe : ToolCall → Bool) (execute : ℕ → ToolCall → Result Text ToolExecutionResult)
    (parse_json : Text → Option Value)
    (persist : Text → Text → Option Text → Result E ContentBlock) where
  abbrev pub after_answers : Answers → Result (RoundError E) ReactRoundResult
  after_answers (completions, c) =
      lift_durable (
        perform_calls execute parse_json persist parallel_safe c.tool_calls
          (record { effects = []; outcomes = []; messages = call_message c }))
      >>= λ p. ok (round_result completions c p)

  unfoldable pub run_react_round : Result (RoundError E) ReactRoundResult
  unfolding completions_of
  run_react_round = completions_of chat >>= after_answers

-- ===== src/Loop/Kernel.antt =====
-- A round of the agent (src/agent/react-kernel.ts: runReactRound, from the model's answers on).
-- The model is the parameter `chat`, which gets the output limit and the number of the attempt.
pub mod Durable
pub mod Tools
pub mod Round
pub mod Laws
pub mod Batches
pub mod Atomic
use qq_bot_v.Prelude.{
  ℕ, ◌+◌, ◌-◌, ◌*◌, min, max, Bool, true, false, Option, none, some, List, [], ◌∷◌, Text, Result,
  ok, err,
}
use qq_bot_v.Prelude.Values.{Value}
use qq_bot_v.Ledger.Types.{ToolCall}

pub data StopReason : Type 0 where
  tool_use end_turn max_tokens model_context_window_exceeded stop_sequence : StopReason
  pause_turn refusal content_filter unknown_reason : StopReason

pub record Usage : Type 0 where
  pub input_tokens : Option ℕ
  pub cached_tokens : Option ℕ
  pub output_tokens : Option ℕ

-- The model's name and the provider's evidence are left out.
pub record LlmCallOutput : Type 0 where
  pub content : Text
  pub tool_calls : List ToolCall
  pub native_blocks : Option (List Value)
  pub usage : Usage
  pub context_window_tokens : ℕ
  pub stop_reason : Option StopReason

module _ (E : Type 0) where
  pub data RoundError : Type 0 where
    context_window_stop : ℕ → RoundError
    output_truncated : LlmCallOutput → ℕ → RoundError
    chat_failed : E → RoundError
    durable_failed : E → RoundError

abbrev pub or_zero : Option ℕ → ℕ
or_zero none = 0
or_zero (some n) = n

abbrev pub default_escalated_output_tokens : ℕ
default_escalated_output_tokens = 8192

abbrev pub max_escalated_output_tokens : ℕ
max_escalated_output_tokens = 65536

-- The differences are cut off at 0, as by `Math.max(0, ...)`.
abbrev pub sum_tokens_used : List LlmCallOutput → ℕ
sum_tokens_used [] = 0
sum_tokens_used (c ∷ cs) =
    (or_zero c.usage.input_tokens - or_zero c.usage.cached_tokens)
    + or_zero c.usage.output_tokens
    + sum_tokens_used cs

unfoldable pub resolve_escalated_output_tokens : Option ℕ → Option ℕ → ℕ
resolve_escalated_output_tokens current observed =
    min max_escalated_output_tokens (
      max 1
        (max default_escalated_output_tokens (max (or_zero current * 2) (or_zero observed * 2))))

pub data Ending : Type 0 where
  overflowed truncated finished : Ending

abbrev pub ending_of : Option StopReason → Ending
ending_of (some model_context_window_exceeded) = overflowed
ending_of (some max_tokens) = truncated
ending_of _ = finished

-- All answers of a round, and the last of them.
abbrev pub Answers : Type 0
Answers = List LlmCallOutput × LlmCallOutput

module _ {E : Type 0} (chat : Option ℕ → ℕ → Result E LlmCallOutput) where
  abbrev pub ended_twice : LlmCallOutput → LlmCallOutput → Ending → Result (RoundError E) Answers
  ended_twice c d overflowed = err (context_window_stop d.context_window_tokens)
  ended_twice c d truncated = err (output_truncated d (sum_tokens_used (c ∷ d ∷ [])))
  ended_twice c d finished = ok (c ∷ d ∷ [], d)

  abbrev pub second_answer : LlmCallOutput → Result E LlmCallOutput → Result (RoundError E) Answers
  second_answer c (err e) = err (chat_failed e)
  second_answer c (ok d) = ended_twice c d (ending_of d.stop_reason)

  abbrev pub ended_once : LlmCallOutput → Ending → Result (RoundError E) Answers
  ended_once c overflowed = err (context_window_stop c.context_window_tokens)
  ended_once c truncated =
      second_answer c (chat (some (resolve_escalated_output_tokens none c.usage.output_tokens)) 2)
  ended_once c finished = ok (c ∷ [], c)

  abbrev pub first_answer : Result E LlmCallOutput → Result (RoundError E) Answers
  first_answer (err e) = err (chat_failed e)
  first_answer (ok c) = ended_once c (ending_of c.stop_reason)

  -- The loop over the attempts: the flag of the escalation lets it go round twice at most.
  unfoldable pub completions_of : Result (RoundError E) Answers
  completions_of = first_answer (chat none 1)

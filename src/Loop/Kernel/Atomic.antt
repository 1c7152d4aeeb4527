-- ===== src/Loop/Kernel/Atomic.antt =====
-- A round appends one atomic unit of the history, or nothing.
use qq_bot_v.Prelude.{ℕ, ◌≤◌, ◌≡◌, true, some, List, ◌++◌, map, text_eq, Text, length, last?}
use qq_bot_v.Ledger.Types.{Message, ToolCall}
use qq_bot_v.Compaction.Units.{results_match}
use qq_bot_v.Loop.Kernel.{LlmCallOutput, Answers, finished, ending_of}
use qq_bot_v.Loop.Kernel.Tools.{ReactToolOutcome, Performed}
use qq_bot_v.Loop.Kernel.Round.{ReactRoundResult, call_message}

abbrev pub message_self : Message → Message
message_self m = m

abbrev pub no_tokens : Message → ℕ
no_tokens m = 0

-- The messages are the results of the calls, each of its call and in their order.
abbrev pub Answer : List ToolCall → List Message → Type 0
Answer calls results = results_match message_self no_tokens calls results ≡ true

abbrev pub ids_of : List ToolCall → List Text
ids_of calls = map (λ c. c.id) calls

abbrev pub outcome_ids : List ReactToolOutcome → List Text
outcome_ids os = map (λ o. o.tool_call_id) os

-- What performing the calls adds: a result and an outcome for each of them.
abbrev Adds : List ToolCall → Performed → Performed → Type 0
Adds calls acc p =
    (results : List Message) × ((p.messages ≡ acc.messages ++ results)
      × (Answer calls results
          × ((os : List ReactToolOutcome) × ((p.outcomes ≡ acc.outcomes ++ os)
                × (outcome_ids os ≡ ids_of calls)))))

-- The answers of a round: at most two, and the last of them ends it.
abbrev pub AreAnswers : Answers → Type 0
AreAnswers a = (length a.0 ≤ 2) × ((last? a.0 ≡ some a.1) × (ending_of a.1.stop_reason ≡ finished))

-- What a round that succeeds has: its answer `c`, the message of its calls and their results.
pub record IsRound (r : ReactRoundResult) : Type 0 where
  pub answer : LlmCallOutput
  pub results : List Message
  pub answers : AreAnswers (r.completions, answer)
  pub appended : r.messages_to_append ≡ call_message answer ++ results
  pub answered : Answer answer.tool_calls results
  pub counted : outcome_ids r.tool_outcomes ≡ ids_of answer.tool_calls

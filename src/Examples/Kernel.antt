-- ===== src/Examples/Kernel.antt =====
-- The theorems on a round, with two calls that may run together and one that fails.
use qq_bot_v.Prelude.{
  All, ℕ, ◌≡◌, Bool, true, false, not, Option, none, some, List, [], ◌∷◌, ◌==◌, text_eq, Text, text,
  Result, ok, err, if◌then◌else◌,
}
use qq_bot_v.Prelude.Values.{Value, end}
use qq_bot_v.Ledger.Types.{ToolCall, ContentBlock, text_block}
use qq_bot_v.Loop.Kernel.{LlmCallOutput, tool_use, max_tokens, StopReason}
use qq_bot_v.Loop.Kernel.Durable.{live_plain}
use qq_bot_v.Loop.Kernel.Tools.{ToolExecutionResult, Performed, call_batches}
use qq_bot_v.Loop.Kernel.Round.{ReactRoundResult, call_message, round_result}
use qq_bot_v.Loop.Kernel.Laws.{perform_each}
use qq_bot_v.Loop.Kernel.Batches.{IsBatch, AreMaximal, joined, call_batches-Splits}

abbrev call : Text → Text → ToolCall
call id name = record { id = id; name = name; args = end }

abbrev three_calls : List ToolCall
three_calls =
    call (text "c1") (text "read")
    ∷ call (text "c2") (text "read")
    ∷ call (text "c3") (text "send")
    ∷ []

abbrev is_read : ToolCall → Bool
is_read c = c.name == text "read"

-- The third call throws.
abbrev executed : ℕ → ToolCall → Result Text ToolExecutionResult
executed i c =
    if is_read c
    then ok (record { content = live_plain (text "fine"); outcome = none; effects = [] })
    else err (text "broken")

abbrev no_json : Text → Option Value
no_json s = none

abbrev keep_image : Text → Text → Option Text → Result Text ContentBlock
keep_image type bytes d = ok (text_block bytes)

abbrev answer_with : StopReason → LlmCallOutput
answer_with reason = record {
  content = text "thinking";
  tool_calls = three_calls;
  native_blocks = none;
  usage = record { input_tokens = some 10; cached_tokens = some 4; output_tokens = some 6 };
  context_window_tokens = 1000;
  stop_reason = some reason;
}

-- The first answer is cut off.
abbrev chat : Option ℕ → ℕ → Result Text LlmCallOutput
chat none attempt = ok (answer_with max_tokens)
chat (some limit) attempt = ok (answer_with tool_use)

abbrev start : Performed
start = record { effects = []; outcomes = []; messages = call_message (answer_with tool_use) }

abbrev performed_or_start : Result Text Performed → Performed
performed_or_start (ok p) = p
performed_or_start (err e) = start

abbrev performed : Performed
performed = performed_or_start (perform_each executed no_json keep_image 0 three_calls start)

abbrev the_round : ReactRoundResult
the_round =
    round_result (answer_with max_tokens ∷ answer_with tool_use ∷ []) (answer_with tool_use)
      performed

call_batches-Splits_example :
    (joined is_read (call_batches is_read three_calls) ≡ three_calls)
    × (All (IsBatch is_read) (call_batches is_read three_calls)
        × AreMaximal is_read (call_batches is_read three_calls))
call_batches-Splits_example = call_batches-Splits is_read three_calls

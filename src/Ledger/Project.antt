-- ===== src/Ledger/Project.antt =====
-- The projection of the ledger (src/agent/agent-ledger-projection.ts: projectAgentLedger), over
-- entries and a runtime state that `parseAgentLedgerEntry` and `parseAgentRuntimeState` accepted.
-- `json_parses` says whether `JSON.parse` accepts a text.
pub mod Laws
use qq_bot_v.Prelude.{
  ℕ, Bool, true, false, ◌&&◌, not, Option, none, some, List, [], ◌∷◌, ◌++◌, last?, length, Text,
  text, Result, ok, err, ◌>>=◌, ◌>>◌, guard, if◌then◌else◌,
}
use qq_bot_v.Ledger.Types.{
  Message, user, CompactionPayload, CompactionEntry, Entry, entry_id, message_entries,
}
use qq_bot_v.Ledger.Active.{
  LedgerError, head_mismatch, option_beq, assert_strictly_increasing_ids, validate_compaction_chain,
  select_active_messages, messages_of,
}
use qq_bot_v.Ledger.Integrity.{IntegrityError, validate_messages}
use qq_bot_v.Ledger.Runtime.{RuntimeState, ConversationRef, StateError, validate_runtime_state}
use qq_bot_v.Mailbox.Render.{RenderError, render_mailbox_attention_state_event}

pub data Label : Type 0 where
  permanent_ledger active_projection : Label

pub data ProjectError : Type 0 where
  ledger_error : LedgerError → ProjectError
  render_error : RenderError → ProjectError
  snapshot_errors : Label → List IntegrityError → List StateError → ProjectError

pub record Projection : Type 0 where
  pub through_entry_id : Option ℕ
  pub active_entry_count : ℕ
  pub permanent_entry_count : ℕ
  pub messages : List Message
  pub conversation_focus : Option ConversationRef

abbrev pub lift_ledger {ℓ} : {A : Type ℓ} → Result LedgerError A → Result ProjectError A
lift_ledger (ok a) = ok a
lift_ledger (err e) = err (ledger_error e)

abbrev pub lift_render {ℓ} : {A : Type ℓ} → Result RenderError A → Result ProjectError A
lift_render (ok a) = ok a
lift_render (err e) = err (render_error e)

abbrev pub canonical_head : List Entry → Option ℕ
canonical_head es = elim (last? es) [ none ↦ none | some e ↦ some (entry_id e) ]

abbrev pub history_summary_prefix : Text
history_summary_prefix = text "[历史摘要]" ++ 10 ∷ []

abbrev pub render_summary_message : CompactionPayload → Message
render_summary_message p = user (history_summary_prefix ++ p.summary)

unfoldable pub render_machine_state_messages :
    CompactionPayload → Result ProjectError (List Message)
render_machine_state_messages p = elim p.mailbox_attention_state [
  | [] ↦ ok []
  | _ ↦ lift_render (render_mailbox_attention_state_event p.mailbox_attention_state) >>= λ content.
      ok (user content ∷ [])
]

-- The messages that a compaction puts before the active ones.
unfoldable pub synthetic_messages : Option CompactionEntry → Result ProjectError (List Message)
unfolding render_machine_state_messages
synthetic_messages none = ok []
synthetic_messages (some c) = render_machine_state_messages c.payload >>= λ state.
    ok (render_summary_message c.payload ∷ state)

module _ (json_parses : Text → Bool) where
  unfoldable pub assert_snapshot_integrity :
      Label → List Message → RuntimeState → Result ProjectError (Unit {0})
  assert_snapshot_integrity label messages state =
      let v = validate_messages json_parses messages in
      elim v.errors [
        | [] ↦ elim (validate_runtime_state state) [
          | [] ↦ ok tt
          | e ∷ es ↦ err (snapshot_errors label [] (e ∷ es))
        ]
        | e ∷ es ↦ err (snapshot_errors label (e ∷ es) (validate_runtime_state state))
      ]

  unfoldable pub project_agent_ledger : List Entry → RuntimeState → Result ProjectError Projection
  project_agent_ledger es state = do
    lift_ledger (assert_strictly_increasing_ids es)
    guard (option_beq state.ledger_head_entry_id (canonical_head es))
        (ledger_error (head_mismatch state.ledger_head_entry_id (canonical_head es)))
    assert_snapshot_integrity permanent_ledger (messages_of (message_entries es)) state
    latest ← lift_ledger (validate_compaction_chain es)
    active ← lift_ledger (select_active_messages es latest)
    synthetic ← synthetic_messages latest
    assert_snapshot_integrity active_projection (synthetic ++ active) state
    ok (record {
      through_entry_id = canonical_head es;
      active_entry_count = length active;
      permanent_entry_count = length es;
      messages = synthetic ++ active;
      conversation_focus = state.conversation_focus;
    })

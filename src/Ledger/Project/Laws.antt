-- ===== src/Ledger/Project/Laws.antt =====
-- What a projection that succeeds has established, and how it grows with the ledger.
use qq_bot_v.Prelude.{
  ◌≡◌, refl, ap, sym, Bool, true, false, Option, List, [], ◌++◌, arith, Text, Result, ok, err,
  guard, >>=-eq-ok, ok-injective,
}
use qq_bot_v.Ledger.Types.{Message, CompactionEntry, Entry, message_entries}
use qq_bot_v.Ledger.Active.{
  LedgerError, head_mismatch, option_beq, assert_strictly_increasing_ids, validate_compaction_chain,
  select_active_messages, messages_of,
}
use qq_bot_v.Ledger.Integrity.{validate_messages}
use qq_bot_v.Ledger.Runtime.{RuntimeState}
use qq_bot_v.Ledger.Project.{
  Label, permanent_ledger, active_projection, ProjectError, Projection, lift_ledger, ledger_error,
  canonical_head, synthetic_messages, assert_snapshot_integrity, project_agent_ledger,
}

lift_ledger-eq-ok {ℓ} :
    {A : Type ℓ} (r : Result LedgerError A) {a : A} → lift_ledger r ≡ ok a → r ≡ ok a
lift_ledger-eq-ok (ok b) {a} h = let e : b ≡ a = cc in ap ok e
lift_ledger-eq-ok (err e) h = cc

guard-eq-ok : (b : Bool) (e : ProjectError) {u : Unit {0}} → guard b e ≡ ok u → b ≡ true
guard-eq-ok true e h = refl
guard-eq-ok false e h = cc

-- Every check that the projection made, with the values it found.
pub record Checked (json_parses : Text → Bool) (es : List Entry) (state : RuntimeState)
    (p : Projection) : Type 0 where
  pub latest : Option CompactionEntry
  pub active : List Message
  pub synthetic : List Message
  pub ordered : assert_strictly_increasing_ids es ≡ ok tt
  pub at_head : option_beq state.ledger_head_entry_id (canonical_head es) ≡ true
  pub chained : validate_compaction_chain es ≡ ok latest
  pub selected : select_active_messages es latest ≡ ok active
  pub rendered : synthetic_messages latest ≡ ok synthetic
  pub permanent_clean :
      (validate_messages json_parses (messages_of (message_entries es))).errors ≡ []
  pub active_clean : (validate_messages json_parses (synthetic ++ active)).errors ≡ []
  pub messages_are : p.messages ≡ synthetic ++ active
  pub through_is : p.through_entry_id ≡ canonical_head es

module _ (json_parses : Text → Bool) where
  assert_snapshot_integrity-errors :
      (label : Label) (messages : List Message) (state : RuntimeState)
      → assert_snapshot_integrity json_parses label messages state ≡ ok tt
      → (validate_messages json_parses messages).errors ≡ []
  unfolding assert_snapshot_integrity
  assert_snapshot_integrity-errors label messages state h = ground arith

  pub project_agent_ledger-Checked :
      (es : List Entry) (state : RuntimeState) (p : Projection)
      → project_agent_ledger json_parses es state ≡ ok p
      → Checked json_parses es state p
  unfolding project_agent_ledger
  project_agent_ledger-Checked es state p h =
      let (_, ordered, h₁) = >>=-eq-ok (lift_ledger (assert_strictly_increasing_ids es)) _ h in
      let (_, at_head, h₂) =
        >>=-eq-ok
          (guard (option_beq state.ledger_head_entry_id (canonical_head es))
            (ledger_error (head_mismatch state.ledger_head_entry_id (canonical_head es))))
          _ h₁ in
      let (_, permanent, h₃) =
        >>=-eq-ok
          (assert_snapshot_integrity json_parses permanent_ledger (messages_of (message_entries es))
            state)
          _ h₂ in
      let (latest, chained, h₄) = >>=-eq-ok (lift_ledger (validate_compaction_chain es)) _ h₃ in
      let (active, selected, h₅) =
        >>=-eq-ok (lift_ledger (select_active_messages es latest)) _ h₄ in
      let (synthetic, rendered, h₆) = >>=-eq-ok (synthetic_messages latest) _ h₅ in
      let (_, projected, h₇) =
        >>=-eq-ok
          (assert_snapshot_integrity json_parses active_projection (synthetic ++ active) state) _
          h₆ in
      record {
        latest = latest;
        active = active;
        synthetic = synthetic;
        ordered = lift_ledger-eq-ok _ ordered;
        at_head = guard-eq-ok _ _ at_head;
        chained = lift_ledger-eq-ok _ chained;
        selected = lift_ledger-eq-ok _ selected;
        rendered = rendered;
        permanent_clean = assert_snapshot_integrity-errors permanent_ledger _ state permanent;
        active_clean = assert_snapshot_integrity-errors active_projection _ state projected;
        messages_are = ap (λ q. q.messages) (sym (ok-injective h₇));
        through_is = ap (λ q. q.through_entry_id) (sym (ok-injective h₇));
      }

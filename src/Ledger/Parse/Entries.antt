-- ===== src/Ledger/Parse/Entries.antt =====
-- Stored entries (src/agent/agent-ledger-projection.ts: parseAgentLedgerEntry).
use qq_bot_v.Prelude.{ℕ, Bool, [], ◌∷◌, nat_eq, text_eq, Text, text, if◌then◌else◌, ok, ◌>>=◌, ◌>>◌}
use qq_bot_v.Prelude.Values.{Value, Instant, prop, is_text}
use qq_bot_v.Ledger.Types.{Entry, message_entry, compaction_entry}
use qq_bot_v.Ledger.Json.{
  Place, Parsed, reject, at_key, demand_some, index, key, bad_id, bad_date, unknown_entry_type,
  require_record, require_exact_keys,
}
use qq_bot_v.Ledger.Json.{as_positive_bigint, as_date}
use qq_bot_v.Ledger.Parse.Messages.{parse_message_payload}
use qq_bot_v.Ledger.Parse.Compactions.{parse_compaction_payload}

module _ (json_parses : Text → Bool) where
  abbrev pub parse_typed : ℕ → Instant → Value → Value → Place → Parsed Entry
  parse_typed id created_at type payload place =
      if is_text (text "message") type
      then (parse_message_payload json_parses payload (at_key place (text "payload")) >>= λ m.
          ok (message_entry (record { id = id; message = m; created_at = created_at })))
      else if is_text (text "compaction") type
      then (parse_compaction_payload payload (at_key place (text "payload")) >>= λ p.
          ok (compaction_entry (record { id = id; payload = p; created_at = created_at })))
      else reject place unknown_entry_type

  unfoldable pub parse_agent_ledger_entry : Value → ℕ → Parsed Entry
  parse_agent_ledger_entry value i = do
    let place = key (text "entries") ∷ index i ∷ []
    entry ← require_record value place
    require_exact_keys entry (text "id" ∷ text "entryType" ∷ text "payload" ∷ text "createdAt" ∷ [])
        [] place
    id ← demand_some (as_positive_bigint (prop (text "id") entry)) (at_key place (text "id")) bad_id
    created_at ←
        demand_some (as_date (prop (text "createdAt") entry)) (at_key place (text "createdAt"))
          bad_date
    parse_typed id created_at (prop (text "entryType") entry) (prop (text "payload") entry) place

-- ===== src/Ledger/Parse/Sound/Entries.antt =====
-- Every entry that is parsed is one that the ledger can hold, and is read back from its own row.
use qq_bot_v.Prelude.{
  ℕ, zero, suc, ◌≡◌, refl, Bool, true, [], ◌∷◌, text_eq, Text, text, ok, >>=-eq-ok, ok-injective,
}
use mathlib.Core.Path.{subst}
use qq_bot_v.Prelude.Values.{Instant, Value, bigint, prop, is_text}
use qq_bot_v.Ledger.Types.{Entry}
use qq_bot_v.Ledger.Json.{
  Place, at_key, key, index, demand, demand_some, bad_id, bad_date, unsupported_version,
  as_positive_bigint, as_date, is_version, require_record, require_exact_keys,
}
use qq_bot_v.Ledger.Json.Laws.Copies.{both_true}
use qq_bot_v.Ledger.Parse.Compactions.{parse_compaction_payload}
use qq_bot_v.Ledger.Parse.Messages.{parse_message_payload}
use qq_bot_v.Ledger.Parse.Entries.{parse_typed, parse_agent_ledger_entry}
use qq_bot_v.Ledger.Parse.Stored.{is_positive, valid_entry, stored_entry, valid_message}
use qq_bot_v.Ledger.Parse.RoundTrip.Entries.{parse_agent_ledger_entry-stored}
use qq_bot_v.Ledger.Parse.Sound.{Yields}
use qq_bot_v.Ledger.Parse.Sound.Messages.{if-Yields, parse_durable_agent_message-valid_message}
use qq_bot_v.Ledger.Parse.Sound.Compactions.{parse_compaction_payload-valid_payload}

module _ (json_parses : Text → Bool) where
  parse_message_payload-valid_message :
      (v : Value) (place : Place)
      → Yields (valid_message json_parses) (parse_message_payload json_parses v place)
  unfolding parse_message_payload
  parse_message_payload-valid_message v place m h =
      let (fs, _, h1) = >>=-eq-ok (require_record v place) _ h in
      let (_, _, h2) =
        >>=-eq-ok (require_exact_keys fs (text "schemaVersion" ∷ text "message" ∷ []) [] place) _
          h1 in
      let (_, _, h3) =
        >>=-eq-ok (demand (is_version 1 (prop (text "schemaVersion") fs)) place unsupported_version)
          _ h2 in
      parse_durable_agent_message-valid_message json_parses (prop (text "message") fs)
        (at_key place (text "message")) m h3

  parse_typed-valid_entry :
      (id : ℕ) (created_at : Instant) (type payload : Value) (place : Place)
      → is_positive id ≡ true
      → Yields (valid_entry json_parses) (parse_typed json_parses id created_at type payload place)
  parse_typed-valid_entry id created_at type payload place pos =
      if-Yields (valid_entry json_parses) (is_text (text "message") type) _ _
        (λ e h.
          let (m, got, h1) =
            >>=-eq-ok (parse_message_payload json_parses payload (at_key place (text "payload"))) _
              h in
          subst (λ e. valid_entry json_parses e ≡ true) (ok-injective h1)
            (both_true pos (parse_message_payload-valid_message payload _ m got)))
        (if-Yields (valid_entry json_parses) (is_text (text "compaction") type) _ _
          (λ e h.
            let (p, got, h1) =
              >>=-eq-ok (parse_compaction_payload payload (at_key place (text "payload"))) _ h in
            subst (λ e. valid_entry json_parses e ≡ true) (ok-injective h1)
              (both_true pos (parse_compaction_payload-valid_payload payload _ p got)))
          (λ e h. cc))

  positive_bigint :
      (v : Value) (place : Place)
      → Yields is_positive (demand_some (as_positive_bigint v) place bad_id)
  positive_bigint (bigint zero) place n h = cc
  positive_bigint (bigint (suc m)) place n h =
      subst (λ k. is_positive k ≡ true) (ok-injective h) refl
  positive_bigint _ place n h = cc

  -- Every entry that is parsed from a row is one that the ledger can hold: a positive id, ids and
  -- names that are not blank, JSON arguments and native blocks with sorted keys, image sizes that
  -- are positive safe integers, plain tool results that are JSON where they look like it, and a
  -- compaction with a summary, safe token counts, positive entry ids and the mailboxes in order.
  pub parse_agent_ledger_entry-valid_entry :
      (value : Value) (i : ℕ) (e : Entry)
      → parse_agent_ledger_entry json_parses value i ≡ ok e
      → valid_entry json_parses e ≡ true
  unfolding parse_agent_ledger_entry
  parse_agent_ledger_entry-valid_entry value i e h =
      let place = key (text "entries") ∷ index i ∷ [] in
      let (fs, _, h1) = >>=-eq-ok (require_record value place) _ h in
      let (_, _, h2) =
        >>=-eq-ok
          (require_exact_keys fs
            (text "id" ∷ text "entryType" ∷ text "payload" ∷ text "createdAt" ∷ []) [] place)
          _ h1 in
      let (id, n, h3) =
        >>=-eq-ok
          (demand_some (as_positive_bigint (prop (text "id") fs)) (at_key place (text "id")) bad_id)
          _ h2 in
      let (created_at, _, h4) =
        >>=-eq-ok
          (demand_some (as_date (prop (text "createdAt") fs)) (at_key place (text "createdAt"))
            bad_date)
          _ h3 in
      parse_typed-valid_entry id created_at (prop (text "entryType") fs) (prop (text "payload") fs)
        place (positive_bigint (prop (text "id") fs) (at_key place (text "id")) id n) e h4

  -- What is parsed from a row, stored again and parsed again is the same entry.
  pub parse_agent_ledger_entry-stored_entry :
      (value : Value) (i j : ℕ) (e : Entry)
      → parse_agent_ledger_entry json_parses value i ≡ ok e
      → parse_agent_ledger_entry json_parses (stored_entry e) j ≡ ok e
  parse_agent_ledger_entry-stored_entry value i j e h =
      parse_agent_ledger_entry-stored json_parses e j
        (parse_agent_ledger_entry-valid_entry value i e h)

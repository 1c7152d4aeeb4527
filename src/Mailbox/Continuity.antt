-- ===== src/Mailbox/Continuity.antt =====
-- What the bot has last seen of each mailbox, and how much context to give again when it comes
-- back to it (src/agent/mailbox-continuity.ts).
pub mod Laws
pub mod Epochs
use qq_bot_v.Prelude.{
  ℕ, ◌+◌, ◌-◌, max, Bool, true, false, ◌&&◌, ◌||◌, not, Option, none, some, List, [], ◌∷◌, ltb, leb,
  ◌==◌, nat_eq, text_eq, Text, text, lookup, insert, if◌then◌else◌, Result, ok, err, ◌>>=◌, ◌>>◌,
  guard,
}
use qq_bot_v.Prelude.Values.{
  Value, undefined, null, Fields, prop, entries, as_record, non_negative_safe, max_safe_integer,
}
use qq_bot_v.Mailbox.Keys.{is_mailbox_key}

abbrev pub light_compensation_after_ms : ℕ
light_compensation_after_ms = 7200000

abbrev pub full_compensation_after_rounds : ℕ
full_compensation_after_rounds = 30

abbrev pub full_compensation_after_tokens : ℕ
full_compensation_after_tokens = 128000

abbrev pub engagement_lease_ms : ℕ
engagement_lease_ms = 1800000

pub record MailboxContinuityAnchor : Type 0 where
  pub last_message_at_ms : ℕ
  pub round_seq : ℕ
  pub input_tokens : Option ℕ
  pub compaction_epoch : ℕ
  pub engaged_until_ms : Option ℕ

-- The constant `schemaVersion` is left out.
pub record MailboxContinuityState : Type 0 where
  pub round_seq : ℕ
  pub last_input_tokens : Option ℕ
  pub compaction_epoch : ℕ
  pub mailboxes : List (Text × MailboxContinuityAnchor)

pub data CompensationMode : Type 0 where
  no_compensation light full : CompensationMode

pub record MailboxCompensationDecision : Type 0 where
  pub mode : CompensationMode
  pub context_before : ℕ
  pub elapsed_ms : Option ℕ
  pub rounds_since : Option ℕ
  pub tokens_since : Option ℕ
  pub compaction_changed : Bool

unfoldable pub create_empty_mailbox_continuity_state : MailboxContinuityState
create_empty_mailbox_continuity_state = record {
  round_seq = 0;
  last_input_tokens = none;
  compaction_epoch = 0;
  mailboxes = [];
}

abbrev or_else_zero : Option ℕ → ℕ
or_else_zero none = 0
or_else_zero (some n) = n

-- `parseAnchor` on the fields of an object, from the three that it must have.
abbrev anchor_from : Fields → Option ℕ → Option ℕ → Option ℕ → Option MailboxContinuityAnchor
anchor_from fs (some last_message_at_ms) (some round_seq) (some compaction_epoch) = some (record {
  last_message_at_ms = last_message_at_ms;
  round_seq = round_seq;
  input_tokens = non_negative_safe (prop (text "inputTokens") fs);
  compaction_epoch = compaction_epoch;
  engaged_until_ms = non_negative_safe (prop (text "engagedUntilMs") fs);
})
anchor_from fs _ _ _ = none

unfoldable pub parse_anchor : Value → Option MailboxContinuityAnchor
parse_anchor v = elim (as_record v) [
  | none ↦ none
  | some fs ↦
      anchor_from fs (non_negative_safe (prop (text "lastMessageAtMs") fs))
        (non_negative_safe (prop (text "roundSeq") fs))
        (non_negative_safe (prop (text "compactionEpoch") fs))
]

abbrev put_anchor :
    Text
    → Option MailboxContinuityAnchor
    → List (Text × MailboxContinuityAnchor)
    → List (Text × MailboxContinuityAnchor)
put_anchor key none mailboxes = mailboxes
put_anchor key (some anchor) mailboxes = insert key anchor mailboxes

-- The loop over the entries of `mailboxes`, with the ones taken so far.
abbrev anchors_from :
    List (Text × MailboxContinuityAnchor)
    → List (Text × Value)
    → List (Text × MailboxContinuityAnchor)
anchors_from mailboxes [] = mailboxes
anchors_from mailboxes ((key, raw) ∷ rest) =
    anchors_from
      (if is_mailbox_key key then put_anchor key (parse_anchor raw) mailboxes else mailboxes) rest

abbrev mailboxes_of : Value → List (Text × MailboxContinuityAnchor)
mailboxes_of v = elim (as_record v) [ none ↦ [] | some fs ↦ anchors_from [] (entries fs) ]

unfoldable pub parse_mailbox_continuity_state : Value → MailboxContinuityState
unfolding create_empty_mailbox_continuity_state parse_anchor
parse_mailbox_continuity_state v = elim (as_record v) [
  | none ↦ create_empty_mailbox_continuity_state
  | some fs ↦ record {
    round_seq = or_else_zero (non_negative_safe (prop (text "roundSeq") fs));
    last_input_tokens = non_negative_safe (prop (text "lastInputTokens") fs);
    compaction_epoch = or_else_zero (non_negative_safe (prop (text "compactionEpoch") fs));
    mailboxes = mailboxes_of (prop (text "mailboxes") fs);
  }
]

abbrev pub tokens_between : Option ℕ → Option ℕ → Option ℕ
tokens_between (some now) (some before) = some (now - before)
tokens_between _ _ = none

abbrev pub reaches : Option ℕ → ℕ → Bool
reaches none limit = false
reaches (some n) limit = leb limit n

abbrev mode_for : Bool → ℕ → CompensationMode
mode_for true elapsed = full
mode_for false elapsed = if leb light_compensation_after_ms elapsed then light else no_compensation

abbrev context_for : CompensationMode → ℕ
context_for no_compensation = 0
context_for light = 1
context_for full = 8

abbrev decide_for :
    MailboxContinuityState → ℕ → Option MailboxContinuityAnchor → MailboxCompensationDecision
decide_for state now none = record {
  mode = no_compensation;
  context_before = 0;
  elapsed_ms = none;
  rounds_since = none;
  tokens_since = none;
  compaction_changed = false;
}
decide_for state now (some anchor) =
    let elapsed = now - anchor.last_message_at_ms in
    let rounds = state.round_seq - anchor.round_seq in
    let tokens = tokens_between state.last_input_tokens anchor.input_tokens in
    let changed = not (state.compaction_epoch == anchor.compaction_epoch) in
    let mode =
      mode_for
        (changed
          || leb full_compensation_after_rounds rounds
          || reaches tokens full_compensation_after_tokens)
        elapsed in
    record {
      mode = mode;
      context_before = context_for mode;
      elapsed_ms = some elapsed;
      rounds_since = some rounds;
      tokens_since = tokens;
      compaction_changed = changed;
    }

-- The differences are cut off at 0, as `Math.max(0, …)` does.
unfoldable pub decide_mailbox_compensation :
    MailboxContinuityState → Text → ℕ → MailboxCompensationDecision
decide_mailbox_compensation state key now = decide_for state now (lookup key state.mailboxes)

abbrev pub anchor_now : MailboxContinuityState → ℕ → Option ℕ → MailboxContinuityAnchor
anchor_now state at engaged = record {
  last_message_at_ms = at;
  round_seq = state.round_seq;
  input_tokens = state.last_input_tokens;
  compaction_epoch = state.compaction_epoch;
  engaged_until_ms = engaged;
}

abbrev pub engaged_of : Option MailboxContinuityAnchor → Option ℕ
engaged_of none = none
engaged_of (some a) = a.engaged_until_ms

abbrev pub last_of : Option MailboxContinuityAnchor → ℕ
last_of none = 0
last_of (some a) = a.last_message_at_ms

abbrev pub set_anchor :
    MailboxContinuityState → Text → MailboxContinuityAnchor → MailboxContinuityState
set_anchor state key a = record state { mailboxes = insert key a state.mailboxes }

-- A message older than the last one leaves the state as it is.
unfoldable pub record_mailbox_disclosure :
    MailboxContinuityState → Text → ℕ → MailboxContinuityState
record_mailbox_disclosure state key at =
    let current = lookup key state.mailboxes in
    if ltb at (last_of current)
    then state
    else set_anchor state key (anchor_now state at (engaged_of current))

pub data ContinuityError : Type 0 where
  invalid_mailbox_key invalid_time invalid_lease invalid_expiry : ContinuityError

unfoldable pub record_mailbox_engagement :
    MailboxContinuityState → Text → ℕ → ℕ → Result ContinuityError MailboxContinuityState
record_mailbox_engagement state key now lease = do
  guard (is_mailbox_key key) invalid_mailbox_key
  guard (leb now max_safe_integer) invalid_time
  guard (leb lease max_safe_integer && ltb 0 lease) invalid_lease
  guard (leb (now + lease) max_safe_integer) invalid_expiry
  let current = lookup key state.mailboxes
  ok (
      set_anchor state key (
        anchor_now state (max (last_of current) now)
          (some (max (or_else_zero (engaged_of current)) (now + lease)))))

unfoldable pub is_mailbox_engaged : MailboxContinuityState → Text → ℕ → Bool
is_mailbox_engaged state key now = reaches (engaged_of (lookup key state.mailboxes)) now

abbrev tokens_or : Option ℕ → Option ℕ → Option ℕ
tokens_or none before = before
tokens_or (some n) before = if leb n max_safe_integer then some n else before

unfoldable pub record_mailbox_round : MailboxContinuityState → Option ℕ → MailboxContinuityState
record_mailbox_round state tokens = record state {
  round_seq = state.round_seq + 1;
  last_input_tokens = tokens_or tokens state.last_input_tokens;
}

unfoldable pub record_mailbox_compaction : MailboxContinuityState → MailboxContinuityState
record_mailbox_compaction state = record state {
  compaction_epoch = state.compaction_epoch + 1;
  last_input_tokens = none;
}

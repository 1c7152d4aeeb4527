-- ===== src/Mailbox/Attention.antt =====
-- What was disclosed and handled in each mailbox, read back from the history
-- (src/agent/mailbox-handled.ts). `parse_json` is `JSON.parse`, `none` where it throws.
pub mod Laws
use qq_bot_v.Prelude.{
  ℕ, zero, suc, ◌+◌, max, Bool, true, false, ◌&&◌, ◌||◌, not, Option, none, some, List, [], ◌∷◌,
  ◌++◌, map, ltb, leb, ◌==◌, nat_eq, text_eq, Text, text, lookup, insert, any, flat_map,
  if◌then◌else◌, Result, ok, err, ◌>>=◌, ◌>>◌, guard,
}
use qq_bot_v.Prelude.Values.{
  Value, undefined, object, array, string, Fields, end, field, Items, nil, cons, prop, as_record,
  is_text, all_own, keys_within, non_negative_safe, positive_safe, max_safe_integer,
}
use qq_bot_v.Prelude.Json.{decimal, json_string, json_object, sort_entries}
use qq_bot_v.Mailbox.Keys.{is_mailbox_key, is_private_mailbox}
use qq_bot_v.Ledger.Types.{Message, user, assistant, tool, AttentionCursors}

abbrev pub or_zero : Option ℕ → ℕ
or_zero none = 0
or_zero (some n) = n

abbrev pub AttentionState : Type 0
AttentionState = List (Text × AttentionCursors)

abbrev pub positive : ℕ → Option ℕ
positive zero = none
positive (suc n) = some (suc n)

abbrev pub cursors_of : ℕ → ℕ → ℕ → AttentionCursors
cursors_of disclosed handled high = record {
  disclosed_through_row_id = disclosed;
  handled_through_row_id = handled;
  high_priority_through_row_id = positive high;
}

abbrev pub high_of : AttentionCursors → ℕ
high_of c = or_zero c.high_priority_through_row_id

abbrev pub is_zero_cursors : AttentionCursors → Bool
is_zero_cursors c =
    c.disclosed_through_row_id == 0 && c.handled_through_row_id == 0 && high_of c == 0

abbrev merge_with : Option AttentionCursors → AttentionCursors → AttentionCursors
merge_with none c = cursors_of c.disclosed_through_row_id c.handled_through_row_id (high_of c)
merge_with (some b) c =
    cursors_of (max b.disclosed_through_row_id c.disclosed_through_row_id)
      (max b.handled_through_row_id c.handled_through_row_id) (max (high_of b) (high_of c))

abbrev is_absent : Option AttentionCursors → Bool
is_absent none = true
is_absent (some c) = false

unfoldable pub merge_mailbox_cursors : AttentionState → Text → AttentionCursors → AttentionState
merge_mailbox_cursors merged mailbox incoming =
    if is_absent (lookup mailbox merged) && is_zero_cursors incoming
    then merged
    else insert mailbox (merge_with (lookup mailbox merged) incoming) merged

-- The names of the properties in the events.
abbrev pub event_key : Text
event_key = text "event"

abbrev pub mailbox_key : Text
mailbox_key = text "mailbox"

abbrev pub through_key : Text
through_key = text "throughRowId"

-- A property that is a mailbox key.
abbrev mailbox_prop : Fields → Option Text
mailbox_prop fs = elim (prop mailbox_key fs) [
  | string s ↦ if is_mailbox_key s then some s else none
  | _ ↦ none
]

-- The cursors that the disclosure of `through` stands for.
abbrev disclosure : Text → ℕ → Bool → Text × AttentionCursors
disclosure mailbox through high = (
  mailbox,
  cursors_of through 0 (if high && not (is_private_mailbox mailbox) then through else 0),
)

abbrev disclosure_of : Option Text → Option ℕ → Bool → List (Text × AttentionCursors)
disclosure_of (some mailbox) (some through) high = disclosure mailbox through high ∷ []
disclosure_of _ _ high = []

abbrev delta_disclosures : Items → List (Text × AttentionCursors)
delta_disclosures nil = []
delta_disclosures (cons v vs) =
    elim (as_record v) [
      | none ↦ []
      | some fs ↦
          disclosure_of (mailbox_prop fs) (positive_safe (prop through_key fs))
            (is_text (text "high") (prop (text "priority") fs))
    ]
    ++ delta_disclosures vs

abbrev is_notification : Fields → Bool
is_notification fs =
    is_text (text "notification") (prop event_key fs)
    && is_text (text "inbox_update") (prop (text "kind") fs)

abbrev is_interrupt : Fields → Bool
is_interrupt fs =
    is_text (text "high") (prop (text "priority") fs)
    && is_text (text "interrupt") (prop (text "delivery") fs)

abbrev notification_disclosures : Fields → List (Text × AttentionCursors)
notification_disclosures fs = elim (as_record (prop (text "data") fs)) [
  | none ↦ []
  | some d ↦ disclosure_of (mailbox_prop d) (positive_safe (prop through_key d)) (is_interrupt fs)
]

-- The three shapes after `conversation_deltas`: `inbox_update`, `notification`, and others.
abbrev other_disclosures : Fields → List (Text × AttentionCursors)
other_disclosures fs =
    let update =
      disclosure_of (mailbox_prop fs) (positive_safe (prop through_key fs))
        (elim (mailbox_prop fs) [ none ↦ false | some s ↦ is_private_mailbox s ]) in
    if is_text (text "inbox_update") (prop event_key fs)
    then update
    else if is_notification fs
    then notification_disclosures fs
    else []

unfoldable pub parse_mailbox_disclosures : Fields → List (Text × AttentionCursors)
parse_mailbox_disclosures fs =
    if is_text (text "conversation_deltas") (prop event_key fs)
    then elim (prop (text "mailboxes") fs) [
      | array vs ↦ delta_disclosures vs
      | _ ↦ other_disclosures fs
    ]
    else other_disclosures fs

abbrev pub disclosed_key : Text
disclosed_key = text "disclosedThroughRowId"

abbrev pub handled_key : Text
handled_key = text "handledThroughRowId"

abbrev pub high_key : Text
high_key = text "highPriorityThroughRowId"

abbrev checked_cursors : Value → Option ℕ → Option ℕ → Option AttentionCursors
checked_cursors undefined (some disclosed) (some handled) = some (cursors_of disclosed handled 0)
checked_cursors high (some disclosed) (some handled) = elim (non_negative_safe high) [
  | none ↦ none
  | some h ↦ some (cursors_of disclosed handled h)
]
checked_cursors high _ _ = none

abbrev parse_cursors : Value → Option AttentionCursors
parse_cursors v = elim (as_record v) [
  | none ↦ none
  | some fs ↦
      if all_own (disclosed_key ∷ handled_key ∷ []) fs
        && keys_within (disclosed_key ∷ handled_key ∷ high_key ∷ []) fs
      then checked_cursors (prop high_key fs) (non_negative_safe (prop disclosed_key fs))
          (non_negative_safe (prop handled_key fs))
      else none
]

abbrev add_parsed : Text → Option AttentionCursors → Option AttentionState → Option AttentionState
add_parsed mailbox (some c) (some rest) = some ((mailbox, c) ∷ rest)
add_parsed mailbox _ _ = none

-- The properties of `mailboxes`; one that is wrong makes the result `null`.
abbrev parse_mailboxes : Fields → Option AttentionState
parse_mailboxes end = some []
parse_mailboxes (field k v fs) =
    let rest = parse_mailboxes fs in
    if is_mailbox_key k then add_parsed k (parse_cursors v) rest else none

abbrev sorted : Option AttentionState → Option AttentionState
sorted none = none
sorted (some state) = some (sort_entries state)

unfoldable pub parse_attention_state : Fields → Option AttentionState
parse_attention_state fs =
    if is_text (text "mailbox_attention_state") (prop event_key fs)
      && all_own (event_key ∷ text "mailboxes" ∷ []) fs
      && keys_within (event_key ∷ text "mailboxes" ∷ []) fs
    then elim (as_record (prop (text "mailboxes") fs)) [
      | none ↦ none
      | some ms ↦ sorted (parse_mailboxes ms)
    ]
    else none

abbrev handled_facts : Fields → List (Text × AttentionCursors)
handled_facts fs =
    let fact : List (Text × AttentionCursors) = elim (mailbox_prop fs) [
      | none ↦ []
      | some mailbox ↦ elim (positive_safe (prop through_key fs)) [
        | none ↦ []
        | some through ↦ (mailbox, cursors_of 0 through 0) ∷ []
      ]
    ] in
    if is_text (text "mailbox_handled") (prop event_key fs) then fact else []

-- The first disclosures, and a handled event only where there are none.
abbrev disclosed_or_handled :
    List (Text × AttentionCursors) → Fields → List (Text × AttentionCursors)
disclosed_or_handled [] fs = handled_facts fs
disclosed_or_handled (d ∷ ds) fs = d ∷ ds

-- What one payload adds: a compacted state, or disclosures, or a handled event.
unfoldable pub payload_facts : Fields → List (Text × AttentionCursors)
payload_facts fs = elim (parse_attention_state fs) [
  | some state ↦ state
  | none ↦ disclosed_or_handled (parse_mailbox_disclosures fs) fs
]

unfoldable pub merge_facts : AttentionState → List (Text × AttentionCursors) → AttentionState
merge_facts merged [] = merged
merge_facts merged ((mailbox, c) ∷ facts) =
    merge_facts (merge_mailbox_cursors merged mailbox c) facts

module _ (parse_json : Text → Option Value) where
  -- The object that a user message holds.
  abbrev payload_of : Message → Option Fields
  payload_of (user content) = elim (parse_json content) [ none ↦ none | some v ↦ as_record v ]
  payload_of _ = none

  unfoldable pub message_facts : Message → List (Text × AttentionCursors)
  message_facts m = elim (payload_of m) [ none ↦ [] | some fs ↦ payload_facts fs ]

  capture_from : AttentionState → List Message → AttentionState
  capture_from merged [] = merged
  capture_from merged (m ∷ ms) = capture_from (merge_facts merged (message_facts m)) ms

  unfoldable pub capture_mailbox_attention_state : List Message → AttentionState
  unfolding capture_from
  capture_mailbox_attention_state messages = sort_entries (capture_from [] messages)

  unfoldable pub is_attention_state_message : Message → Bool
  is_attention_state_message m = elim (payload_of m) [
    | none ↦ false
    | some fs ↦ elim (parse_attention_state fs) [ none ↦ false | some state ↦ true ]
  ]

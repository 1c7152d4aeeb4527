-- ===== src/Ledger/Growth.antt =====
-- How the projection grows with the ledger.
use qq_bot_v.Prelude.{
  ℕ, ◌<◌, ◌≤◌, ◌≡◌, refl, ap, sym, ◌∙◌, inl, inr, Bool, Option, none, some, List, [], ◌∷◌, ◌++◌,
  arith, ◌==◌, nat_eq, keep, keep-append, find, All, Text, ok, >>=-eq-ok, ok-injective,
  Option-cases,
}
use mathlib.Core.List.{append_assoc}
use native.Mathlib.Nat.{le_of_eq}
use qq_bot_v.Ledger.Types.{
  Message, MessageEntry, CompactionEntry, Entry, message_entry, compaction_entry, entry_id,
  message_entries,
}
use qq_bot_v.Ledger.Active.{
  validate_compaction_chain, chain_from, check_boundary, check_boundary_entry, is_active,
  select_active_messages, messages_of,
}
use qq_bot_v.Ledger.Order.{Ascends, assert_strictly_increasing_ids_iff}
use qq_bot_v.Ledger.Runtime.{RuntimeState}
use qq_bot_v.Ledger.Project.{Projection, synthetic_messages, project_agent_ledger}
use qq_bot_v.Ledger.Project.Laws.{project_agent_ledger-Checked}

-- The chain of compactions is not touched by a message at the end.
chain_from-append_message :
    (previous : Option CompactionEntry) (es : List Entry) (m : MessageEntry)
    → chain_from previous (es ++ message_entry m ∷ []) ≡ chain_from previous es
unfolding chain_from
chain_from-append_message previous [] m = refl
chain_from-append_message previous (message_entry n ∷ es) m =
    chain_from-append_message previous es m
chain_from-append_message previous (compaction_entry c ∷ es) m =
    ground (arith, chain_from-append_message (some c) es m)

message_entries-append :
    (es fs : List Entry) → message_entries (es ++ fs) ≡ message_entries es ++ message_entries fs
message_entries-append [] fs = refl
message_entries-append (message_entry m ∷ es) fs = ap (λ t. m ∷ t) (message_entries-append es fs)
message_entries-append (compaction_entry c ∷ es) fs = message_entries-append es fs

messages_of-append :
    (ms ns : List MessageEntry) → messages_of (ms ++ ns) ≡ messages_of ms ++ messages_of ns
messages_of-append [] ns = refl
messages_of-append (m ∷ ms) ns = ap (λ t. m.message ∷ t) (messages_of-append ms ns)

-- The compaction that a chain ends with has an id of the list, so it lies below an id behind it.
chain_from-below :
    (previous : Option CompactionEntry) (low : ℕ) (es : List Entry) (m : MessageEntry)
    (c : CompactionEntry)
    → ((d : CompactionEntry) → previous ≡ some d → d.id ≤ low)
    → Ascends low (es ++ message_entry m ∷ [])
    → chain_from previous es ≡ ok (some c)
    → c.id < m.id
unfolding chain_from
chain_from-below previous low [] m c below a h = let le = below c (ok-injective h) in omega arith
chain_from-below previous low (message_entry n ∷ es) m c below a h =
    chain_from-below previous n.id es m c (λ d e. let le = below d e in omega arith) a.1 h
chain_from-below previous low (compaction_entry d ∷ es) m c below a h =
    chain_from-below (some d) d.id es m c
      (λ e p. let q : d ≡ e = cc in le_of_eq (ap (λ x. x.id) (sym q))) a.1 (ground arith)

validate_chain-append_message :
    (es : List Entry) (m : MessageEntry)
    → validate_compaction_chain (es ++ message_entry m ∷ []) ≡ validate_compaction_chain es
unfolding validate_compaction_chain
validate_chain-append_message es m = chain_from-append_message none es m

validate_chain-below :
    (es : List Entry) (m : MessageEntry) (c : CompactionEntry)
    → Ascends 0 (es ++ message_entry m ∷ [])
    → validate_compaction_chain es ≡ ok (some c)
    → c.id < m.id
unfolding validate_compaction_chain
validate_chain-below es m c a h = chain_from-below none 0 es m c (λ d e. cc) a h

find-append {ℓ} :
    {A : Type ℓ} (p : A → Bool) (xs ys : List A) (x : A)
    → find p xs ≡ some x
    → find p (xs ++ ys) ≡ some x
find-append p [] ys x h = cc
find-append p (y ∷ xs) ys x h = ground (arith, find-append p xs ys x)

-- A boundary that was found stays found.
check_boundary-append :
    (c : ℕ) (b : Option ℕ) (es fs : List Entry)
    → check_boundary c b es ≡ ok tt
    → check_boundary c b (es ++ fs) ≡ ok tt
unfolding check_boundary check_boundary_entry
check_boundary-append c none es fs h = refl
check_boundary-append c (some b) es fs h = elim (Option-cases (find (λ e. entry_id e == b) es)) [
  | inl missing ↦ let h' = rw (missing, check_boundary_entry) at h in cc
  | inr (e, found) ↦ rw (find-append _ es fs e found) (rw found at h)
]

keep_new :
    (c : CompactionEntry) (m : MessageEntry) → c.id < m.id → keep (is_active c) (m ∷ []) ≡ m ∷ []
keep_new c m h = ground arith

select_active-append_message :
    (es : List Entry) (m : MessageEntry) (latest : Option CompactionEntry) (active : List Message)
    → ((c : CompactionEntry) → latest ≡ some c → c.id < m.id)
    → select_active_messages es latest ≡ ok active
    → select_active_messages (es ++ message_entry m ∷ []) latest ≡ ok (active ++ m.message ∷ [])
unfolding select_active_messages
select_active-append_message es m none active below h = ap ok (
    ap messages_of (message_entries-append es (message_entry m ∷ []))
    ∙ messages_of-append (message_entries es) (m ∷ [])
    ∙ ap (λ t. t ++ m.message ∷ []) (ok-injective h))
select_active-append_message es m (some c) active below h =
    let b = c.payload.first_kept_entry_id in
    let (_, found, h') = >>=-eq-ok (check_boundary c.id b es) _ h in
    rw (check_boundary-append c.id b es (message_entry m ∷ []) found) (
      ap ok (
        ap (λ t. messages_of (keep (is_active c) t))
          (message_entries-append es (message_entry m ∷ []))
        ∙ ap messages_of (keep-append (is_active c) (message_entries es) (m ∷ []))
        ∙ ap (λ t. messages_of (keep (is_active c) (message_entries es) ++ t))
            (keep_new c m (below c refl))
        ∙ messages_of-append (keep (is_active c) (message_entries es)) (m ∷ [])
        ∙ ap (λ t. t ++ m.message ∷ []) (ok-injective h')))

-- Appending a message to the ledger appends it to the projection and changes nothing before it:
-- where both projections succeed, the messages of the longer are those of the shorter and then the
-- new one.
pub project-append_message :
    (json_parses : Text → Bool) (es : List Entry) (m : MessageEntry) (state state' : RuntimeState)
    (p p' : Projection)
    → All (λ e. 0 < entry_id e) (es ++ message_entry m ∷ [])
    → project_agent_ledger json_parses es state ≡ ok p
    → project_agent_ledger json_parses (es ++ message_entry m ∷ []) state' ≡ ok p'
    → p'.messages ≡ p.messages ++ m.message ∷ []
project-append_message json_parses es m state state' p p' pos h h' =
    let c = project_agent_ledger-Checked json_parses es state p h in
    let c' = project_agent_ledger-Checked json_parses (es ++ message_entry m ∷ []) state' p' h' in
    let ascends =
      (assert_strictly_increasing_ids_iff (es ++ message_entry m ∷ []) pos).0 c'.ordered in
    let same_latest : c'.latest ≡ c.latest =
      ok-injective (sym c'.chained ∙ validate_chain-append_message es m ∙ c.chained) in
    let grown =
      select_active-append_message es m c.latest c.active
        (λ d e. validate_chain-below es m d ascends (c.chained ∙ ap ok e)) c.selected in
    let same_active : c'.active ≡ c.active ++ m.message ∷ [] = ok-injective (
      sym c'.selected
      ∙ ap (select_active_messages (es ++ message_entry m ∷ [])) same_latest
      ∙ grown) in
    let same_synthetic : c'.synthetic ≡ c.synthetic =
      ok-injective (sym c'.rendered ∙ ap synthetic_messages same_latest ∙ c.rendered) in
    c'.messages_are
    ∙ ap (λ t. t ++ c'.active) same_synthetic
    ∙ ap (λ t. c.synthetic ++ t) same_active
    ∙ sym (append_assoc c.synthetic c.active (m.message ∷ []))
    ∙ ap (λ t. t ++ m.message ∷ []) (sym c.messages_are)

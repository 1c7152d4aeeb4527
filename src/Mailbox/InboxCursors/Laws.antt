-- ===== src/Mailbox/InboxCursors/Laws.antt =====
-- Stored cursors are parsed back, and an advance keeps them so.
use qq_bot_v.Prelude.{
  ℕ, ◌≤◌, ◌≡◌, refl, ap, sym, ◌∙◌, max, inl, inr, Bool, true, false, ◌&&◌, Option, none, some, [],
  ◌∷◌, ◌++◌, ltb, leb, ◌==◌, text_eq, text_beq_iff, Text, lookup, insert, lookup-insert, arith,
  Bool-cases, if◌then◌else◌, ok, guard, >>=-eq-ok, ok-injective,
}
use mathlib.Core.Path.{subst}
use mathlib.Core.List.{append_assoc, append-nil}
use qq_bot_v.Prelude.Values.{
  Value, object, number, natural, Fields, end, field, entries, non_negative_safe, max_safe_integer,
}
use qq_bot_v.Mailbox.Keys.{is_mailbox_key}
use qq_bot_v.Mailbox.InboxCursors.{
  InboxReadCursors, CursorError, invalid_key, not_positive, parse_entries, parse_inbox_read_cursors,
  or_zero, advance_inbox_read_cursor,
}

abbrev fields_of : InboxReadCursors → Fields
fields_of [] = end
fields_of ((mailbox, n) ∷ cs) = field mailbox (number (natural n)) (fields_of cs)

-- The object that the cursors are stored as.
abbrev pub stored : InboxReadCursors → Value
stored cs = object (fields_of cs)

-- Keys of mailboxes, each once, with safe integers.
abbrev pub Valid : InboxReadCursors → Type 0
Valid [] = Unit
Valid ((mailbox, n) ∷ cs) =
    (is_mailbox_key mailbox ≡ true)
    × ((n ≤ max_safe_integer) × ((lookup mailbox cs ≡ none) × Valid cs))

insert-new :
    (mailbox : Text) (n : ℕ) (cs : InboxReadCursors)
    → lookup mailbox cs ≡ none
    → insert mailbox n cs ≡ cs ++ (mailbox, n) ∷ []
insert-new mailbox n [] h = refl
insert-new mailbox n ((j, m) ∷ cs) h = elim (Bool-cases (j == mailbox)) [
  | inl same ↦ absurd (let h' : ◌≡◌ {A = Option ℕ} (some m) none = rw same at h in cc)
  | inr other ↦ rw other (ap (λ t. (j, m) ∷ t) (insert-new mailbox n cs (rw other at h)))
]

lookup-append_none :
    (j mailbox : Text) (n : ℕ) (cs : InboxReadCursors)
    → lookup j cs ≡ none
    → (mailbox == j) ≡ false
    → lookup j (cs ++ (mailbox, n) ∷ []) ≡ none
lookup-append_none j mailbox n [] h other = rw other refl
lookup-append_none j mailbox n ((i, m) ∷ cs) h other = elim (Bool-cases (i == j)) [
  | inl same ↦ absurd (let h' : ◌≡◌ {A = Option ℕ} (some m) none = rw same at h in cc)
  | inr different ↦ rw different (lookup-append_none j mailbox n cs (rw different at h) other)
]

-- No key of the second list is in the first.
abbrev Apart : InboxReadCursors → InboxReadCursors → Type 0
Apart done [] = Unit
Apart done ((mailbox, n) ∷ cs) = (lookup mailbox done ≡ none) × Apart done cs

Apart-more :
    (done cs : InboxReadCursors) (mailbox : Text) (n : ℕ)
    → Apart done cs
    → lookup mailbox cs ≡ none
    → Apart (done ++ (mailbox, n) ∷ []) cs
Apart-more done [] mailbox n a h = tt
Apart-more done ((j, m) ∷ cs) mailbox n a h = elim (Bool-cases (j == mailbox)) [
  | inl same ↦ absurd (let h' : ◌≡◌ {A = Option ℕ} (some m) none = rw same at h in cc)
  | inr other ↦ (
    lookup-append_none j mailbox n done a.0 (flip j mailbox other),
    Apart-more done cs mailbox n a.1 (rw other at h),
  )
]
  where
    flip : (j k : Text) → (j == k) ≡ false → (k == j) ≡ false
    flip j k other = elim (Bool-cases (k == j)) [
      | inr h ↦ h
      | inl same ↦ absurd (
          let e = (text_beq_iff k j).0 same in
          let back = (text_beq_iff j k).1 (sym e) in let h' : false ≡ true = sym other ∙ back in cc)
    ]

safe_number : (n : ℕ) → n ≤ max_safe_integer → non_negative_safe (number (natural n)) ≡ some n
unfolding non_negative_safe
safe_number n safe =
    let le : leb n max_safe_integer ≡ true = ground (arith, safe) in rw (non_negative_safe, le) refl

parse_entries-stored :
    (done cs : InboxReadCursors)
    → Valid cs
    → Apart done cs
    → parse_entries done (entries (fields_of cs)) ≡ ok (done ++ cs)
parse_entries-stored done [] v a = ap ok (sym (append-nil done))
parse_entries-stored done ((mailbox, n) ∷ cs) (key, (safe, (once, v))) a =
    rw (key, safe_number n safe, insert-new mailbox n done a.0)
      (parse_entries-stored (done ++ (mailbox, n) ∷ []) cs v (Apart-more done cs mailbox n a.1 once)
        ∙ ap ok (append_assoc done ((mailbox, n) ∷ []) cs))

Apart-nil : (cs : InboxReadCursors) → Apart [] cs
Apart-nil [] = tt
Apart-nil ((mailbox, n) ∷ cs) = (refl, Apart-nil cs)

-- Cursors that are valid are parsed back from what they are stored as.
pub parse_inbox_read_cursors-stored :
    (cs : InboxReadCursors) → Valid cs → parse_inbox_read_cursors (stored cs) ≡ ok cs
unfolding parse_inbox_read_cursors
parse_inbox_read_cursors-stored cs v = parse_entries-stored [] cs v (Apart-nil cs)

lookup-safe :
    (j : Text) (cs : InboxReadCursors) → Valid cs → or_zero (lookup j cs) ≤ max_safe_integer
lookup-safe j [] v = omega arith
lookup-safe j ((k, n) ∷ cs) (key, (safe, (once, v))) = elim (Bool-cases (k == j)) [
  | inl same ↦ rw same safe
  | inr other ↦ rw other (lookup-safe j cs v)
]

insert-Valid :
    (mailbox : Text) (n : ℕ) (cs : InboxReadCursors)
    → is_mailbox_key mailbox ≡ true
    → n ≤ max_safe_integer
    → Valid cs
    → Valid (insert mailbox n cs)
insert-Valid mailbox n [] key safe v = (key, (safe, (refl, tt)))
insert-Valid mailbox n ((k, m) ∷ cs) key safe (key', (safe', (once, v))) =
    elim (Bool-cases (k == mailbox)) [
      | inl same ↦ rw same (key', (safe, (once, v)))
      | inr other ↦ rw other (
        key',
        (
          safe',
          (
            lookup-insert k mailbox n cs ∙ rw (flipped k mailbox other) once,
            insert-Valid mailbox n cs key safe v,
          ),
        ),
      )
    ]
  where
    flipped : (j k : Text) → (j == k) ≡ false → (k == j) ≡ false
    flipped j k other = elim (Bool-cases (k == j)) [
      | inr h ↦ h
      | inl same ↦ absurd (
          let back = (text_beq_iff j k).1 (sym ((text_beq_iff k j).0 same)) in
          let h' : false ≡ true = sym other ∙ back in cc)
    ]

-- An advance keeps the cursors valid; the mailbox's cursor becomes the larger of what it was and
-- the row id, and no other changes.
pub advance_inbox_read_cursor-Valid :
    (cs cs' : InboxReadCursors) (mailbox : Text) (row : ℕ)
    → Valid cs
    → advance_inbox_read_cursor cs mailbox row ≡ ok cs'
    → Valid cs'
      × ((j : Text)
          → lookup j cs'
            ≡ (if mailbox == j then some (max (or_zero (lookup mailbox cs)) row) else lookup j cs))
unfolding advance_inbox_read_cursor
advance_inbox_read_cursor-Valid cs cs' mailbox row v h =
    let (_, key, h1) = >>=-eq-ok (guard (is_mailbox_key mailbox) (invalid_key mailbox)) _ h in
    let (_, safe, h2) =
      >>=-eq-ok (guard (leb row max_safe_integer && ltb 0 row) not_positive) _ h1 in
    let q = ok-injective h2 in
    let before = lookup-safe mailbox cs v in
    let row_safe = and_left (leb row max_safe_integer) (ltb 0 row) (guarded not_positive safe) in
    (
      subst Valid q (
          insert-Valid mailbox (max (or_zero (lookup mailbox cs)) row) cs
            (guarded (invalid_key mailbox) key)
            (let le : row ≤ max_safe_integer = ground (arith, row_safe) in omega arith) v),
      λ j.
          ap (lookup j) (sym q)
          ∙ lookup-insert j mailbox (max (or_zero (lookup mailbox cs)) row) cs,
    )
  where
    guarded : {b : Bool} (e : CursorError) {x : Unit {0}} → guard b e ≡ ok x → b ≡ true
    guarded {b = true} e h = refl
    guarded {b = false} e h = cc

    and_left : (a b : Bool) → (a && b) ≡ true → a ≡ true
    and_left true b h = refl
    and_left false b h = h

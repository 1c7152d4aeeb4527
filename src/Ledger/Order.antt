-- ===== src/Ledger/Order.antt =====
-- Entries in the order of their ids, and membership in them.
use qq_bot_v.Prelude.{
  ℕ, ◌+◌, ◌≤◌, ◌<◌, ◌≡◌, refl, ◌⊎◌, inl, inr, ◌↔◌, Bool, some, List, [], ◌∷◌, ◌++◌, arith, ◌==◌,
  nat_eq, keep, find, Bool-cases, All, ok,
}
use qq_bot_v.Ledger.Types.{
  MessageEntry, Entry, message_entry, compaction_entry, entry_id, message_entries,
}
use qq_bot_v.Ledger.Active.{increasing_from, assert_strictly_increasing_ids}

-- Each id is larger than the one before it, the first larger than `low`.
abbrev pub Ascends : ℕ → List Entry → Type 0
Ascends low [] = Unit
Ascends low (e ∷ es) = (low < entry_id e) × Ascends (entry_id e) es

increasing_from_iff :
    (index previous : ℕ) (es : List Entry)
    → (increasing_from index previous es ≡ ok tt) ↔ Ascends previous es
unfolding increasing_from
increasing_from_iff index previous [] = (λ h. tt, λ h. refl)
increasing_from_iff index previous (e ∷ es) =
    ground (arith, increasing_from_iff (index + 1) (entry_id e) es)

-- Where all ids are positive, the check passes exactly when each id is larger than the one before
-- it.
pub assert_strictly_increasing_ids_iff :
    (es : List Entry)
    → All (λ e. 0 < entry_id e) es
    → (assert_strictly_increasing_ids es ≡ ok tt) ↔ Ascends 0 es
unfolding assert_strictly_increasing_ids
assert_strictly_increasing_ids_iff [] pos = (λ h. tt, λ h. refl)
assert_strictly_increasing_ids_iff (e ∷ es) pos = (
  λ h. (pos.0, (increasing_from_iff 1 (entry_id e) es).0 h),
  λ h. (increasing_from_iff 1 (entry_id e) es).1 h.1,
)

abbrev pub Among : {A : Type 0} → A → List A → Type 0
Among x [] = ⊥
Among x (y ∷ ys) = (x ≡ y) ⊎ Among x ys

module _ {A : Type 0} where
  pub Among-append_middle : (xs : List A) (x : A) (ys : List A) → Among x (xs ++ x ∷ ys)
  Among-append_middle [] x ys = inl refl
  Among-append_middle (y ∷ xs) x ys = inr (Among-append_middle xs x ys)

  pub Among-keep : (p : A → Bool) (x : A) (xs : List A) → Among x (keep p xs) → Among x xs
  Among-keep p x [] h = h
  Among-keep p x (y ∷ xs) h = elim (Bool-cases (p y)) [
    | inl kept ↦ elim (let h' : Among x (y ∷ keep p xs) = rw kept at h in h') [
      | inl e ↦ inl e
      | inr m ↦ inr (Among-keep p x xs m)
    ]
    | inr dropped ↦ inr (Among-keep p x xs (rw dropped at h))
  ]

Ascends-lower : (low low' : ℕ) (es : List Entry) → low' ≤ low → Ascends low es → Ascends low' es
Ascends-lower low low' [] h a = tt
Ascends-lower low low' (e ∷ es) h a = (omega arith, a.1)

Among-above :
    (m : MessageEntry) (low : ℕ) (es : List Entry)
    → Ascends low es
    → Among m (message_entries es)
    → low < m.id
Among-above m low [] a h = absurd h
Among-above m low (compaction_entry c ∷ es) a h =
    Among-above m low es (Ascends-lower c.id low es (omega arith) a.1) h
Among-above m low (message_entry n ∷ es) a (inl e) = rw e a.0
Among-above m low (message_entry n ∷ es) a (inr h) =
    Among-above m low es (Ascends-lower n.id low es (omega arith) a.1) h

-- A message entry is found by its id.
pub find-Among :
    (m : MessageEntry) (low : ℕ) (es more : List Entry)
    → Ascends low es
    → Among m (message_entries es)
    → find (λ e. entry_id e == m.id) (es ++ more) ≡ some (message_entry m)
find-Among m low [] more a h = absurd h
find-Among m low (compaction_entry c ∷ es) more a h =
    let above = Among-above m c.id es a.1 h in ground (arith, find-Among m c.id es more a.1 h)
find-Among m low (message_entry n ∷ es) more a (inl e) = rw e (ground arith)
find-Among m low (message_entry n ∷ es) more a (inr h) =
    let above = Among-above m n.id es a.1 h in ground (arith, find-Among m n.id es more a.1 h)

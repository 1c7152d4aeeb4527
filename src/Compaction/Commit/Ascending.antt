-- ===== src/Compaction/Commit/Ascending.antt =====
-- Entries by ascending ids: from an id on they are a tail.
use qq_bot_v.Prelude.{
  ℕ, ◌<◌, ◌≤◌, ◌≡◌, refl, inl, inr, Bool, true, List, [], ◌∷◌, ◌++◌, arith, leb, nat_eq, keep, All,
  Bool-cases,
}
use qq_bot_v.Ledger.Types.{
  MessageEntry, CompactionEntry, Entry, message_entry, compaction_entry, message_entries,
}
use qq_bot_v.Ledger.Active.{is_active}
use qq_bot_v.Ledger.Order.{Ascends}

-- Message entries by ascending ids.
abbrev pub Rises : ℕ → List MessageEntry → Type 0
Rises low [] = Unit
Rises low (m ∷ ms) = (low < m.id) × Rises m.id ms

Rises-lower : (low low' : ℕ) (ms : List MessageEntry) → low' ≤ low → Rises low ms → Rises low' ms
Rises-lower low low' [] h r = tt
Rises-lower low low' (m ∷ ms) h r = (omega arith, r.1)

pub Ascends-Rises : (low : ℕ) (es : List Entry) → Ascends low es → Rises low (message_entries es)
Ascends-Rises low [] a = tt
Ascends-Rises low (message_entry m ∷ es) a = (a.0, Ascends-Rises m.id es a.1)
Ascends-Rises low (compaction_entry c ∷ es) a =
    Rises-lower c.id low (message_entries es) (omega arith) (Ascends-Rises c.id es a.1)

pub Rises-keep :
    (p : MessageEntry → Bool) (low : ℕ) (ms : List MessageEntry)
    → Rises low ms
    → Rises low (keep p ms)
Rises-keep p low [] r = tt
Rises-keep p low (m ∷ ms) r = elim (Bool-cases (p m)) [
  | inl kept ↦ rw kept (r.0, Rises-keep p m.id ms r.1)
  | inr dropped ↦ rw dropped (Rises-lower m.id low _ (omega arith) (Rises-keep p m.id ms r.1))
]

keep-above :
    (b low : ℕ) (ms : List MessageEntry) → b ≤ low → Rises low ms → keep (λ m. leb b m.id) ms ≡ ms
keep-above b low [] h r = refl
keep-above b low (m ∷ ms) h r = ground (arith, keep-above b m.id ms)

Rises-first :
    (low : ℕ) (first : MessageEntry) (s rest : List MessageEntry)
    → Rises low (s ++ first ∷ rest)
    → low < first.id
Rises-first low first [] rest r = r.0
Rises-first low first (m ∷ s) rest r = let e = Rises-first m.id first s rest r.1 in omega arith

-- In ascending order the entries from an id on are a tail.
pub keep-tail :
    (first : MessageEntry) (low : ℕ) (s rest : List MessageEntry)
    → Rises low (s ++ first ∷ rest)
    → keep (λ m. leb first.id m.id) (s ++ first ∷ rest) ≡ first ∷ rest
keep-tail first low [] rest r = ground (arith, keep-above first.id first.id rest)
keep-tail first low (m ∷ s) rest r =
    let below = Rises-first m.id first s rest r.1 in ground (arith, keep-tail first m.id s rest r.1)

module _ {A : Type 0} (p q : A → Bool) where
  pub keep-keep_of_implies :
      (xs : List A) → All (λ x. p x ≡ true → q x ≡ true) xs → keep p (keep q xs) ≡ keep p xs
  keep-keep_of_implies [] h = refl
  keep-keep_of_implies (x ∷ xs) h = ground (arith, keep-keep_of_implies xs h.1)

pub All-keep : {A : Type 0} (p : A → Bool) (xs : List A) → All (λ x. p x ≡ true) (keep p xs)
All-keep p [] = tt
All-keep p (x ∷ xs) = elim (Bool-cases (p x)) [
  | inl kept ↦ rw kept (kept, All-keep p xs)
  | inr dropped ↦ rw dropped (All-keep p xs)
]

active_above :
    (c : CompactionEntry) (first m : MessageEntry)
    → is_active c first ≡ true
    → first.id ≤ m.id
    → is_active c m ≡ true
active_above c first m h le = ground arith

pub from_implies_active :
    (c : CompactionEntry) (first : MessageEntry) (ms : List MessageEntry)
    → is_active c first ≡ true
    → All (λ m. leb first.id m.id ≡ true → is_active c m ≡ true) ms
from_implies_active c first [] h = tt
from_implies_active c first (m ∷ ms) h =
    (λ le. active_above c first m h (ground arith), from_implies_active c first ms h)

-- ===== src/Compaction/Commit/Laws.antt =====
-- Once the candidate is in the ledger, the projection keeps exactly the tail that was prepared.
use qq_bot_v.Prelude.{
  ℕ, ◌+◌, ◌<◌, ◌≤◌, ◌≡◌, refl, ap, sym, ◌∙◌, inl, inr, true, false, Option, none, some, List, [],
  ◌∷◌, ◌++◌, arith, ltb, leb, nat_eq, keep, last?, All, All-append_right, Text, ok, Bool-cases,
}
use mathlib.Core.Path.{subst}
use qq_bot_v.Ledger.Types.{
  Message, user, assistant, tool, AttentionCursors, MessageEntry, CompactionEntry, Entry,
  message_entry, compaction_entry, entry_id, message_entries,
}
use qq_bot_v.Ledger.Active.{
  is_active, from_boundary, option_beq, compaction_id, check_boundary_entry,
  select_active_message_entries,
}
use qq_bot_v.Ledger.Order.{Ascends, Among, Among-append_middle, Among-keep}
use qq_bot_v.Compaction.Units.{AtomicUnit, build_atomic_units}
use qq_bot_v.Compaction.Units.Laws.{build_atomic_units-not_tool}
use qq_bot_v.Compaction.Prepare.{Ready, head_id}
use qq_bot_v.Compaction.Commit.{candidate_payload, candidate_with_head, candidate_entry}
use qq_bot_v.Compaction.Commit.Ascending.{
  keep-keep_of_implies, Rises, Ascends-Rises, Rises-keep, keep-tail, All-keep, from_implies_active,
}

-- The entries from `first` on, where `first` starts a part of the active entries.
pub active_from :
    (es : List Entry) (previous : Option CompactionEntry) (s rest : List MessageEntry)
    (first : MessageEntry)
    → Ascends 0 es
    → s ++ first ∷ rest ≡ select_active_message_entries es previous
    → keep (λ m. leb first.id m.id) (message_entries es) ≡ first ∷ rest
unfolding select_active_message_entries
active_from es none s rest first a h =
    ap (keep (λ m. leb first.id m.id)) (sym h)
    ∙ keep-tail first 0 s rest (subst (Rises 0) (sym h) (Ascends-Rises 0 es a))
active_from es (some c) s rest first a h =
    let ms = message_entries es in
    let first_active : is_active c first ≡ true =
      (All-append_right (λ m. is_active c m ≡ true) s (first ∷ rest)
        (subst (All (λ m. is_active c m ≡ true)) (sym h) (All-keep (is_active c) ms))).0 in
    sym (
      keep-keep_of_implies (λ m. leb first.id m.id) (is_active c) ms
        (from_implies_active c first ms first_active))
    ∙ ap (keep (λ m. leb first.id m.id)) (sym h)
    ∙ keep-tail first 0 s rest
        (subst (Rises 0) (sym h) (Rises-keep (is_active c) 0 ms (Ascends-Rises 0 es a)))

some-injective' : {x y : Entry} → ◌≡◌ {A = Option Entry} (some x) (some y) → x ≡ y
some-injective' h = cc

-- The last id bounds all.
pub Ascends-head :
    (low : ℕ) (es : List Entry) (last : Entry)
    → Ascends low es
    → last? es ≡ some last
    → (low < entry_id last) × All (λ m. m.id ≤ entry_id last) (message_entries es)
Ascends-head low [] last a h = cc
Ascends-head low (message_entry m ∷ []) last a h =
    let e : m.id ≡ entry_id last = ap entry_id (some-injective' h) in
    (omega arith, (omega arith, tt))
Ascends-head low (compaction_entry c ∷ []) last a h =
    let e : c.id ≡ entry_id last = ap entry_id (some-injective' h) in (omega arith, tt)
Ascends-head low (message_entry m ∷ f ∷ es) last a h =
    let (lt, below) = Ascends-head m.id (f ∷ es) last a.1 h in (omega arith, (omega arith, below))
Ascends-head low (compaction_entry c ∷ f ∷ es) last a h =
    let (lt, below) = Ascends-head c.id (f ∷ es) last a.1 h in (omega arith, below)

pub keep-none : (ms : List MessageEntry) → keep (λ m. from_boundary none m.id) ms ≡ []
keep-none [] = refl
keep-none (m ∷ ms) = keep-none ms

pub message_entries-append_compaction :
    (es : List Entry) (c : CompactionEntry)
    → message_entries (es ++ compaction_entry c ∷ []) ≡ message_entries es
message_entries-append_compaction [] c = refl
message_entries-append_compaction (message_entry m ∷ es) c =
    ap (λ ms. m ∷ ms) (message_entries-append_compaction es c)
message_entries-append_compaction (compaction_entry d ∷ es) c =
    message_entries-append_compaction es c

-- What a committed candidate carries.
pub record Carries (p : Ready) (runtime_head : Option ℕ) (c : CompactionEntry) : Type 0 where
  pub head : ℕ
  pub expected : p.expected_head_entry_id ≡ some head
  pub is_next : c.id ≡ head + 1
  pub boundary : c.payload.first_kept_entry_id ≡ p.first_kept_entry_id
  pub previous : c.payload.previous_compaction_entry_id ≡ compaction_id p.previous_compaction

pub option_beq-eq : (a b : Option ℕ) → option_beq a b ≡ true → a ≡ b
option_beq-eq none none h = refl
option_beq-eq none (some b) h = cc
option_beq-eq (some a) none h = cc
option_beq-eq (some a) (some b) h = let e : a ≡ b = ground arith in ap some e

pub option_beq_refl : (a : Option ℕ) → option_beq a a ≡ true
option_beq_refl none = refl
option_beq_refl (some a) = ground arith

none-some : {A : Type 0} {c : A} → ¬ (◌≡◌ {A = Option A} none (some c))
none-some h = cc

pub some-injective : {A : Type 0} {x y : A} → ◌≡◌ {A = Option A} (some x) (some y) → x ≡ y
some-injective h = cc

module _ (p : Ready) (summary : Text) (n : ℕ) (attention : List (Text × AttentionCursors))
    (runtime_head : Option ℕ) where
  candidate_with_head-Carries :
      (expected : Option ℕ) (c : CompactionEntry)
      → p.expected_head_entry_id ≡ expected
      → candidate_with_head p summary n attention runtime_head expected ≡ some c
      → Carries p runtime_head c
  unfolding candidate_with_head candidate_payload
  candidate_with_head-Carries none c e h = absurd (none-some h)
  candidate_with_head-Carries (some head) c e h =
      elim (Bool-cases (option_beq runtime_head (some head))) [
        | inr moved ↦ absurd (none-some (rw moved at h))
        | inl same ↦
            let q = some-injective (rw same at h) in
            record {
              head = head;
              expected = e;
              is_next = ap (λ c. c.id) (sym q);
              boundary = ap (λ c. c.payload.first_kept_entry_id) (sym q);
              previous = ap (λ c. c.payload.previous_compaction_entry_id) (sym q);
            }
      ]

  pub candidate_entry-Carries :
      (c : CompactionEntry)
      → candidate_entry p summary n attention runtime_head ≡ some c
      → Carries p runtime_head c
  unfolding candidate_entry
  candidate_entry-Carries c h = candidate_with_head-Carries p.expected_head_entry_id c refl h

-- Above the head only the boundary of the candidate counts.
pub keep-candidate :
    (c : CompactionEntry) (head : ℕ) (boundary : Option ℕ) (ms : List MessageEntry)
    → c.id ≡ head + 1
    → c.payload.first_kept_entry_id ≡ boundary
    → All (λ m. m.id ≤ head) ms
    → keep (is_active c) ms ≡ keep (λ m. from_boundary boundary m.id) ms
keep-candidate c head boundary [] e f h = refl
keep-candidate c head boundary (m ∷ ms) e f h =
    let rest = keep-candidate c head boundary ms e f h.1 in
    let low : ltb c.id m.id ≡ false = rw e (ground (arith, h.0)) in rw (low, f, rest) refl

pub starts_units :
    (get_tokens : MessageEntry → ℕ) (c b : ℕ) (first : MessageEntry) (rest : List MessageEntry)
    {us : List (AtomicUnit MessageEntry)}
    → build_atomic_units (λ m. m.message) get_tokens (first ∷ rest) ≡ some us
    → check_boundary_entry c b (some (message_entry first)) ≡ ok tt
unfolding check_boundary_entry
starts_units g c b first rest h = by_message first.message refl
  where
    by_message :
        (m : Message)
        → first.message ≡ m
        → check_boundary_entry c b (some (message_entry first)) ≡ ok tt
    by_message (user _) e = rw e refl
    by_message (assistant _ _ _) e = rw e refl
    by_message (tool id content) e =
        absurd (build_atomic_units-not_tool (λ m. m.message) g first rest _ id content e h)

pub Among-active :
    (es : List Entry) (previous : Option CompactionEntry) (s rest : List MessageEntry)
    (first : MessageEntry)
    → s ++ first ∷ rest ≡ select_active_message_entries es previous
    → Among first (message_entries es)
unfolding select_active_message_entries
Among-active es none s rest first h = subst (Among first) h (Among-append_middle s first rest)
Among-active es (some c) s rest first h =
    Among-keep (is_active c) first (message_entries es)
      (subst (Among first) h (Among-append_middle s first rest))

pub last_with_id :
    (es : List Entry) (head : ℕ)
    → head_id es ≡ some head
    → (last : Entry) × (last? es ≡ some last) × (entry_id last ≡ head)
last_with_id es head h = from_last (last? es) h
  where
    from_last :
        (o : Option Entry)
        → elim o as (λ _. Option ℕ) [ none ↦ none | some e ↦ some (entry_id e) ] ≡ some head
        → (last : Entry) × (o ≡ some last) × (entry_id last ≡ head)
    from_last none h = absurd (none-some h)
    from_last (some e) h = (e, refl, some-injective h)

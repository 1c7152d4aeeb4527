-- ===== src/Compaction/Prepare/Cut.antt =====
-- How a cut divides the atomic units and their entries.
use qq_bot_v.Prelude.{
  ℕ, zero, suc, ◌≤◌, ◌≡◌, refl, ap, sym, ◌∙◌, true, false, Option, some, List, [], ◌∷◌, ◌++◌,
  nat_eq, arith, take, drop, take-append-drop, if◌then◌else◌, All,
}
use mathlib.Core.Path.{subst}
use mathlib.Core.List.{append_assoc}
use qq_bot_v.Ledger.Types.{MessageEntry, CompactionEntry}
use qq_bot_v.Compaction.Units.{AtomicUnit}
use qq_bot_v.Compaction.Units.Laws.{flatten, IsAtomic}
use qq_bot_v.Compaction.Boundary.{BoundarySelection, or_zero, unit_tokens, user_at}
use qq_bot_v.Compaction.Prepare.{PrepareInput, Ready, ready, is_user_entry, cut_with}

flatten-append :
    {T : Type 0} (us vs : List (AtomicUnit T)) → flatten (us ++ vs) ≡ flatten us ++ flatten vs
flatten-append [] vs = refl
flatten-append (u ∷ us) vs =
    rw (flatten-append us vs) (sym (append_assoc u.items (flatten us) (flatten vs)))

pub flatten-take-drop :
    {T : Type 0} (n : ℕ) (us : List (AtomicUnit T))
    → flatten (take n us) ++ flatten (drop n us) ≡ flatten us
flatten-take-drop n us =
    sym (flatten-append (take n us) (drop n us)) ∙ ap flatten (take-append-drop n us)

take-take {ℓ} : {A : Type ℓ} (a b : ℕ) (xs : List A) → a ≤ b → take a (take b xs) ≡ take a xs
take-take zero b xs h = refl
take-take (suc a) zero xs h = absurd (omega arith)
take-take (suc a) (suc b) [] h = refl
take-take (suc a) (suc b) (x ∷ xs) h = ap (λ t. x ∷ t) (take-take a b xs (omega arith))

-- The entries of the turn prefix follow those of the history.
pub flatten-split :
    {T : Type 0} (a b : ℕ) (us : List (AtomicUnit T))
    → a ≤ b
    → flatten (take a us) ++ flatten (drop a (take b us)) ≡ flatten (take b us)
flatten-split a b us h = rw (← take-take a b us h) (flatten-take-drop a (take b us))

abbrev pub Atomics : (MessageEntry → ℕ) → List (AtomicUnit MessageEntry) → Type 0
Atomics get_tokens us = All (IsAtomic (λ m. m.message) get_tokens) us

-- The entry at the cut is a user message exactly when its unit is one.
pub user_at-cut :
    (get_tokens : MessageEntry → ℕ) (us : List (AtomicUnit MessageEntry)) (b : ℕ)
    (first : MessageEntry) (rest : List MessageEntry)
    → Atomics get_tokens us
    → flatten (drop b us) ≡ first ∷ rest
    → user_at us b ≡ true
    → is_user_entry first ≡ true
user_at-cut g [] b first rest h e user = cc
user_at-cut g (u ∷ us) zero first rest ((item, results, p, closed), h) e user =
    ground (arith, ap (λ v. v.items) p, ap (λ v. v.first_role) p)
user_at-cut g (u ∷ us) (suc b) first rest h e user = user_at-cut g us b first rest h.1 e user

pub ready-injective : {p q : Ready} → ready p ≡ ready q → p ≡ q
ready-injective h = cc

module _ (i : PrepareInput) (previous : Option CompactionEntry) where
  -- What `ready` says of the cut that it was made from.
  pub record Cut (us : List (AtomicUnit MessageEntry)) (s : BoundarySelection) (p : Ready)
      : Type 0 where
    pub first : MessageEntry
    pub rest : List MessageEntry
    pub tail_is : p.tail_entries ≡ first ∷ rest
    pub kept : p.first_kept_entry_id ≡ some first.id
    pub not_user : p.is_split_turn ≡ true → is_user_entry first ≡ false
    pub history :
        p.history_entries
        ≡ flatten (
            take
              (if p.is_split_turn then or_zero s.latest_turn_start else s.boundary_unit_index)
              us)
    pub prefix : p.split_turn_prefix_entries ≡ (
        if p.is_split_turn
        then flatten (drop (or_zero s.latest_turn_start) (take s.boundary_unit_index us))
        else [])
    pub tokens : p.estimated_tail_tokens ≡ unit_tokens (drop s.boundary_unit_index us)
    pub was : p.previous_compaction ≡ previous

  pub cut_with-Cut :
      (us : List (AtomicUnit MessageEntry)) (s : BoundarySelection)
      (summarized tail : List MessageEntry) (p : Ready)
      → cut_with i previous us s summarized tail ≡ ready p
      → (p.entries_to_summarize ≡ summarized) × (p.tail_entries ≡ tail) × Cut us s p
  unfolding cut_with
  cut_with-Cut us s [] tail p h = cc
  cut_with-Cut us s (e ∷ es) [] p h = cc
  cut_with-Cut us s (e ∷ es) (first ∷ rest) p h =
      subst (λ q. (q.entries_to_summarize ≡ e ∷ es) × (q.tail_entries ≡ first ∷ rest) × Cut us s q)
        (ready-injective h)
        (
          refl,
          refl,
          record {
            first = first;
            rest = rest;
            tail_is = refl;
            kept = refl;
            not_user = ground arith;
            history = refl;
            prefix = ground arith;
            tokens = refl;
            was = refl;
          },
        )

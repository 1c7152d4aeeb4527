-- ===== src/Compaction/Prepare/Parts.antt =====
-- How the cut of a prepared compaction divides the active entries.
use qq_bot_v.Prelude.{
  ℕ, ◌≤◌, ◌<◌, ◌≡◌, refl, sym, ◌∙◌, ◌⊎◌, inl, inr, true, ◌||◌, Option, none, some, List, [], ◌∷◌,
  ◌++◌, ltb, leb, ◌==◌, nat_eq, arith, length, take, drop, Bool-cases, Option-cases, All-drop,
}
use mathlib.Core.Path.{subst}
use mathlib.Core.List.{append-nil}
use qq_bot_v.Ledger.Types.{
  MessageEntry, CompactionEntry, CompactionReason, threshold, overflow, behavioral_reset,
}
use qq_bot_v.Compaction.Units.{AtomicUnit, build_atomic_units}
use qq_bot_v.Compaction.Units.Laws.{flatten, build_atomic_units_sound, build_atomic_units_complete}
use qq_bot_v.Compaction.Boundary.{
  BoundarySelection, or_zero, unit_tokens, user_at, select_atomic_boundary,
}
use qq_bot_v.Compaction.Boundary.Laws.{select_atomic_boundary_cuts}
use qq_bot_v.Compaction.Prepare.{
  PrepareInput, Ready, Preparation, ready, cut_with, prepare_cut, prepare_reset, prepare_units,
}
use qq_bot_v.Compaction.Prepare.Cut.{
  Cut, cut_with-Cut, flatten-take-drop, flatten-split, Atomics, user_at-cut, ready-injective,
}

-- A prepared compaction divides the active entries: first those to summarise, which are the
-- history and then the turn prefix, and then those to keep, which are whole atomic units.
pub record Divides (get_tokens : MessageEntry → ℕ) (active : List MessageEntry) (p : Ready)
    : Type 0 where
  pub partition : p.entries_to_summarize ++ p.tail_entries ≡ active
  pub ordered : p.history_entries ++ p.split_turn_prefix_entries ≡ p.entries_to_summarize
  pub unsplit : (p.is_split_turn ≡ true) ⊎ (p.split_turn_prefix_entries ≡ [])
  pub tail_units : List (AtomicUnit MessageEntry)
  pub replayed : build_atomic_units (λ m. m.message) get_tokens p.tail_entries ≡ some tail_units
  pub counted : p.estimated_tail_tokens ≡ unit_tokens tail_units
  pub kept_is :
      ((p.tail_entries ≡ []) × (p.first_kept_entry_id ≡ none))
      ⊎ ((first : MessageEntry) × (rest : List MessageEntry) × (p.tail_entries ≡ first ∷ rest)
          × (p.first_kept_entry_id ≡ some first.id))

module _ (i : PrepareInput) (previous : Option CompactionEntry)
    (get_tokens : MessageEntry → ℕ) where
  Cut-ordered :
      (us : List (AtomicUnit MessageEntry)) (s : BoundarySelection) (p : Ready)
      → Atomics get_tokens us
      → (user_at us s.boundary_unit_index ≡ true)
        ⊎ (or_zero s.latest_turn_start ≤ s.boundary_unit_index)
      → p.tail_entries ≡ flatten (drop s.boundary_unit_index us)
      → Cut i previous us s p
      → p.history_entries ++ p.split_turn_prefix_entries ≡ flatten (take s.boundary_unit_index us)
  Cut-ordered us s p atomic cuts tail c = elim (Bool-cases p.is_split_turn) [
    | inr whole ↦ rw (c.history, c.prefix) (rw whole (append-nil _))
    | inl split ↦
        rw (c.history, c.prefix)
          (rw split (
            flatten-split (or_zero s.latest_turn_start) s.boundary_unit_index us (elim cuts [
              | inr le ↦ le
              | inl user ↦ absurd (
                  let e =
                    user_at-cut get_tokens us s.boundary_unit_index c.first c.rest atomic
                      (sym tail ∙ c.tail_is) user in
                  let e' = c.not_user split in cc)
            ])))
  ]

  cut_with-Divides :
      (us : List (AtomicUnit MessageEntry)) (p : Ready)
      → Atomics get_tokens us
      → 0 < length us
      → let s = select_atomic_boundary us i.keep_recent_tokens in
        cut_with i previous us s
            (flatten (take s.boundary_unit_index us))
            (flatten (drop s.boundary_unit_index us))
          ≡ ready p
        → Divides get_tokens (flatten us) p
  cut_with-Divides us p atomic pos h =
      let s = select_atomic_boundary us i.keep_recent_tokens in
      let b = s.boundary_unit_index in
      let (summarized, tail, c) = cut_with-Cut i previous us s _ _ p h in
      record {
        partition = rw (summarized, tail) (flatten-take-drop b us);
        ordered =
            Cut-ordered us s p atomic (select_atomic_boundary_cuts us i.keep_recent_tokens pos).1
              tail c
            ∙ sym summarized;
        unsplit = elim (Bool-cases p.is_split_turn) [
          | inl split ↦ inl split
          | inr whole ↦ inr (rw (c.prefix) (rw whole refl))
        ];
        tail_units = drop b us;
        replayed = rw tail (
            build_atomic_units_complete (λ m. m.message) get_tokens (drop b us)
              (All-drop _ b us atomic));
        counted = c.tokens;
        kept_is = inr (c.first, c.rest, c.tail_is, c.kept);
      }

  cut-Divides :
      (us : List (AtomicUnit MessageEntry)) (p : Ready)
      → Atomics get_tokens us
      → prepare_cut i previous us ≡ ready p
      → Divides get_tokens (flatten us) p
  unfolding prepare_cut
  cut-Divides us p atomic h =
      let s = select_atomic_boundary us i.keep_recent_tokens in
      let b = s.boundary_unit_index in
      elim (Bool-cases (ltb (length us) 2 || (b == 0 || leb (length us) b))) [
        | inl refused ↦ cc
        | inr legal ↦ cut_with-Divides us p atomic (ground arith) (rw legal at h)
      ]

  reset-Divides :
      (us : List (AtomicUnit MessageEntry)) (p : Ready)
      → prepare_reset i previous us ≡ ready p
      → Divides get_tokens (flatten us) p
  unfolding prepare_reset
  reset-Divides [] p h = cc
  reset-Divides (u ∷ us) p h =
      subst (Divides get_tokens (flatten (u ∷ us))) (ready-injective h) (record {
        partition = append-nil _;
        ordered = append-nil _;
        unsplit = inr refl;
        tail_units = [];
        replayed = build_atomic_units_complete (λ m. m.message) get_tokens [] tt;
        counted = refl;
        kept_is = inl (refl, refl);
      })

  units-Divides :
      (reason : CompactionReason) (us : List (AtomicUnit MessageEntry)) (p : Ready)
      → Atomics get_tokens us
      → elim reason as (λ _. Preparation) [
        | behavioral_reset ↦ prepare_reset i previous us
        | _ ↦ prepare_cut i previous us
      ]
        ≡ ready p
      → Divides get_tokens (flatten us) p
  units-Divides threshold us p atomic h = cut-Divides us p atomic h
  units-Divides overflow us p atomic h = cut-Divides us p atomic h
  units-Divides behavioral_reset us p atomic h = reset-Divides us p h

  -- Every preparation that is ready divides the active entries.
  pub prepare_units-Divides :
      (active : List MessageEntry) (p : Ready)
      → prepare_units i previous (build_atomic_units (λ m. m.message) get_tokens active) ≡ ready p
      → Divides get_tokens active p
  unfolding prepare_units
  prepare_units-Divides active p h =
      elim (Option-cases (build_atomic_units (λ m. m.message) get_tokens active)) [
        | inl malformed ↦ let h' = rw malformed at h in cc
        | inr (us, e) ↦
            let (atomic, same) = build_atomic_units_sound (λ m. m.message) get_tokens active us e in
            subst (λ a. Divides get_tokens a p) same
              (units-Divides i.reason us p atomic (rw e at h))
      ]

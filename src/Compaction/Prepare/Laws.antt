-- ===== src/Compaction/Prepare/Laws.antt =====
-- What a prepared compaction summarises and keeps.
use qq_bot_v.Prelude.{
  ℕ, ◌-◌, ◌≡◌, ap, sym, inl, inr, true, ◌&&◌, ◌||◌, not, Option, none, some, List, [], ◌∷◌, ltb,
  leb, ◌==◌, nat_eq, length, if◌then◌else◌, Bool-cases, ok, >>=-eq-ok, ok-injective,
}
use qq_bot_v.Ledger.Types.{
  MessageEntry, CompactionEntry, CompactionReason, threshold, overflow, behavioral_reset,
}
use qq_bot_v.Ledger.Active.{option_beq, find_latest_compaction, select_active_message_entries}
use qq_bot_v.Compaction.Units.{AtomicUnit, build_atomic_units}
use qq_bot_v.Compaction.Boundary.{BoundarySelection, select_atomic_boundary}
use qq_bot_v.Compaction.Prepare.{
  PrepareInput, Ready, Preparation, not_needed, cannot_compact, stale_projection, ready, cut_with,
  or_else, head_id, is_threshold, is_stale, validate_preparation_numbers, prepare_checked,
  prepare_compaction, prepare_cut, prepare_reset, prepare_units,
}
use qq_bot_v.Compaction.Prepare.Cut.{ready-injective}
use qq_bot_v.Compaction.Prepare.Parts.{Divides, prepare_units-Divides}

module _ (i : PrepareInput) (previous : Option CompactionEntry) where
  cut_with-head :
      (us : List (AtomicUnit MessageEntry)) (s : BoundarySelection) (a b : List MessageEntry)
      (p : Ready)
      → cut_with i previous us s a b ≡ ready p
      → (p.expected_head_entry_id ≡ i.through_entry_id) × (p.previous_compaction ≡ previous)
  unfolding cut_with
  cut_with-head us s [] b p h = cc
  cut_with-head us s (e ∷ es) [] p h = cc
  cut_with-head us s (e ∷ es) (f ∷ fs) p h =
      let q = ready-injective h in
      (ap (λ r. r.expected_head_entry_id) (sym q), ap (λ r. r.previous_compaction) (sym q))

  prepare_cut-head :
      (us : List (AtomicUnit MessageEntry)) (p : Ready)
      → prepare_cut i previous us ≡ ready p
      → (p.expected_head_entry_id ≡ i.through_entry_id) × (p.previous_compaction ≡ previous)
  unfolding prepare_cut
  prepare_cut-head us p h =
      let s = select_atomic_boundary us i.keep_recent_tokens in
      let b = s.boundary_unit_index in
      elim (Bool-cases (ltb (length us) 2 || (b == 0 || leb (length us) b))) [
        | inl refused ↦ cc
        | inr legal ↦ cut_with-head us s _ _ p (rw legal at h)
      ]

  prepare_reset-head :
      (us : List (AtomicUnit MessageEntry)) (p : Ready)
      → prepare_reset i previous us ≡ ready p
      → (p.expected_head_entry_id ≡ i.through_entry_id) × (p.previous_compaction ≡ previous)
  unfolding prepare_reset
  prepare_reset-head [] p h = cc
  prepare_reset-head (u ∷ us) p h =
      let q = ready-injective h in
      (ap (λ r. r.expected_head_entry_id) (sym q), ap (λ r. r.previous_compaction) (sym q))

  pub prepare_units-head :
      (o : Option (List (AtomicUnit MessageEntry))) (p : Ready)
      → prepare_units i previous o ≡ ready p
      → (p.expected_head_entry_id ≡ i.through_entry_id) × (p.previous_compaction ≡ previous)
  unfolding prepare_units
  prepare_units-head none p h = cc
  prepare_units-head (some us) p h = by_reason i.reason h
    where
      by_reason :
          (reason : CompactionReason)
          → elim reason as (λ _. Preparation) [
            | behavioral_reset ↦ prepare_reset i previous us
            | _ ↦ prepare_cut i previous us
          ]
            ≡ ready p
          → (p.expected_head_entry_id ≡ i.through_entry_id) × (p.previous_compaction ≡ previous)
      by_reason threshold e = prepare_cut-head us p e
      by_reason overflow e = prepare_cut-head us p e
      by_reason behavioral_reset e = prepare_reset-head us p e

-- The compaction that is prepared upon, and the entries that are active after it.
abbrev pub previous_of : PrepareInput → Option CompactionEntry
previous_of i = or_else i.previous_compaction (find_latest_compaction i.entries)

abbrev pub active_of : PrepareInput → List MessageEntry
active_of i = select_active_message_entries i.entries (previous_of i)

module _ (get_tokens : MessageEntry → ℕ) where
  not_needed-ready : {p : Ready} → ¬ (not_needed ≡ ready p)
  not_needed-ready h = cc

  fresh_is_ready :
      (i : PrepareInput) (p : Ready)
      → (if not (option_beq (head_id i.entries) i.through_entry_id)
            || is_stale i.entries i.previous_compaction
          then cannot_compact stale_projection i.through_entry_id
          else prepare_units i
              (previous_of i)
              (build_atomic_units (λ m. m.message) get_tokens (active_of i)))
        ≡ ready p
      → (option_beq (head_id i.entries) i.through_entry_id ≡ true)
        × (prepare_units i
              (previous_of i)
              (build_atomic_units (λ m. m.message) get_tokens (active_of i))
            ≡ ready p)
  fresh_is_ready i p h = elim (Bool-cases (option_beq (head_id i.entries) i.through_entry_id)) [
    | inr moved ↦
        (let h' : cannot_compact stale_projection i.through_entry_id ≡ ready p = rw moved at h in
          cc)
    | inl same ↦ elim (Bool-cases (is_stale i.entries i.previous_compaction)) [
      | inl stale ↦
          (let h' : cannot_compact stale_projection i.through_entry_id ≡ ready p =
              rw (same, stale) at h in
            cc)
      | inr current ↦ (same, rw (same, current) at h)
    ]
  ]

  pub prepare_checked-ready :
      (i : PrepareInput) (p : Ready)
      → prepare_checked get_tokens i ≡ ready p
      → (option_beq (head_id i.entries) i.through_entry_id ≡ true)
        × (prepare_units i
              (previous_of i)
              (build_atomic_units (λ m. m.message) get_tokens (active_of i))
            ≡ ready p)
  unfolding prepare_checked
  prepare_checked-ready i p h =
      let low =
        is_threshold i.reason
        && leb i.context_tokens (i.context_window_tokens - i.reserve_tokens) in
      elim (Bool-cases low) [
        | inl enough ↦ absurd (not_needed-ready (rw enough at h))
        | inr needed ↦ fresh_is_ready i p (rw needed at h)
      ]

  pub prepare_compaction-fresh :
      (i : PrepareInput) (p : Ready)
      → prepare_compaction get_tokens i ≡ ok (ready p)
      → (option_beq (head_id i.entries) i.through_entry_id ≡ true)
        × (p.expected_head_entry_id ≡ i.through_entry_id)
        × (p.previous_compaction ≡ previous_of i)
  unfolding prepare_compaction
  prepare_compaction-fresh i p h =
      let (_, _, h') = >>=-eq-ok (validate_preparation_numbers i) _ h in
      let (fresh, units) = prepare_checked-ready i p (ok-injective h') in
      let heads = prepare_units-head i (previous_of i) _ p units in (fresh, heads.0, heads.1)

  -- A compaction that is ready divides the active entries: those to summarise and then the tail
  -- are all of them, in order; those to summarise are the history and then the prefix of a split
  -- turn, which is empty where no turn is split; the tail is whole atomic units whose tokens are
  -- the estimate, and its first entry is the one that is kept first, or both are missing.
  pub prepare_compaction-Divides :
      (i : PrepareInput) (p : Ready)
      → prepare_compaction get_tokens i ≡ ok (ready p)
      → Divides get_tokens (active_of i) p
  unfolding prepare_compaction
  prepare_compaction-Divides i p h =
      let (_, _, h') = >>=-eq-ok (validate_preparation_numbers i) _ h in
      prepare_units-Divides i (previous_of i) get_tokens (active_of i) p
        (prepare_checked-ready i p (ok-injective h')).1

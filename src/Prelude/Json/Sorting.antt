-- ===== src/Prelude/Json/Sorting.antt =====
-- Sorted entries stay as they are when they are sorted again.
use mathlib.Core.Path.{◌≡◌, refl, ap, ◌∙◌}
use mathlib.Core.Logic.{inl, inr}
use mathlib.Core.Bool.{Bool, true, false, ◌&&◌}
use mathlib.Core.List.{List, [], ◌∷◌}
use native.Mathlib.Omega.{arith}
use qq_bot_v.Prelude.Tests.{Bool-cases}
use qq_bot_v.Prelude.Strings.{Text, text_eq}
use qq_bot_v.Prelude.Lists.{All, keep}
use qq_bot_v.Prelude.Json.{text_leb, insert_sorted, sort_entries}

text_leb_total : (s t : Text) → text_leb s t ≡ false → text_leb t s ≡ true
text_leb_total [] t h = cc
text_leb_total (c ∷ s) [] h = refl
text_leb_total (c ∷ s) (d ∷ t) h = ground (arith, text_leb_total s t)

module _ {ℓ} {V : Type ℓ} where
  -- `k` is not after the first key.
  abbrev pub leads : Text → List (Text × V) → Bool
  leads k [] = true
  leads k (e ∷ m) = text_leb k e.0

  abbrev pub is_sorted : List (Text × V) → Bool
  is_sorted [] = true
  is_sorted (e ∷ m) = leads e.0 m && is_sorted m

  insert_sorted-leads :
      (e : Text × V) (m : List (Text × V)) → leads e.0 m ≡ true → insert_sorted e m ≡ e ∷ m
  insert_sorted-leads e [] h = refl
  insert_sorted-leads e (f ∷ m) h = rw h refl

  pub sort_entries_self : (m : List (Text × V)) → is_sorted m ≡ true → sort_entries m ≡ m
  unfolding sort_entries
  sort_entries_self [] h = refl
  sort_entries_self (e ∷ m) h =
      ap (λ t. insert_sorted e t) (sort_entries_self m (ground (arith, h)))
      ∙ insert_sorted-leads e m (ground (arith, h))

  leads-insert_sorted :
      (k : Text) (e : Text × V) (m : List (Text × V))
      → text_leb k e.0 ≡ true
      → leads k m ≡ true
      → leads k (insert_sorted e m) ≡ true
  leads-insert_sorted k e [] h l = h
  leads-insert_sorted k e (f ∷ m) h l = ground arith

  insert_sorted-is_sorted :
      (e : Text × V) (m : List (Text × V))
      → is_sorted m ≡ true
      → is_sorted (insert_sorted e m) ≡ true
  insert_sorted-is_sorted e [] h = refl
  insert_sorted-is_sorted e (f ∷ m) h = elim (Bool-cases (text_leb e.0 f.0)) [
    | inl before ↦ rw before (rw before h)
    | inr behind ↦ rw behind (
        ground (
          arith,
          h,
          leads-insert_sorted f.0 e m (text_leb_total e.0 f.0 behind),
          insert_sorted-is_sorted e m,
        ))
  ]

  pub sort_entries-is_sorted : (m : List (Text × V)) → is_sorted (sort_entries m) ≡ true
  unfolding sort_entries
  sort_entries-is_sorted [] = refl
  sort_entries-is_sorted (e ∷ m) =
      insert_sorted-is_sorted e (sort_entries m) (sort_entries-is_sorted m)

module _ {ℓ κ} {V : Type ℓ} (P : Text × V → Type κ) where
  All-insert_sorted :
      (e : Text × V) (m : List (Text × V)) → P e → All P m → All P (insert_sorted e m)
  All-insert_sorted e [] p h = (p, tt)
  All-insert_sorted e (f ∷ m) p h = elim (Bool-cases (text_leb e.0 f.0)) [
    | inl before ↦ rw before (p, h)
    | inr behind ↦ rw behind (h.0, All-insert_sorted e m p h.1)
  ]

  -- What holds of every entry holds of every entry of the sorted list.
  pub All-sort_entries : (m : List (Text × V)) → All P m → All P (sort_entries m)
  unfolding sort_entries
  All-sort_entries [] h = tt
  All-sort_entries (e ∷ m) h = All-insert_sorted e (sort_entries m) h.0 (All-sort_entries m h.1)

text_leb_trans : (s t u : Text) → text_leb s t ≡ true → text_leb t u ≡ true → text_leb s u ≡ true
text_leb_trans [] t u h k = refl
text_leb_trans (c ∷ s) [] u h k = cc
text_leb_trans (c ∷ s) (d ∷ t) [] h k = cc
text_leb_trans (c ∷ s) (d ∷ t) (e ∷ u) h k = ground (arith, text_leb_trans s t u, h, k)

module _ {ℓ} {V : Type ℓ} (p : Text × V → Bool) where
  leads-keep :
      (k : Text) (m : List (Text × V))
      → leads k m ≡ true
      → is_sorted m ≡ true
      → leads k (keep p m) ≡ true
  leads-keep k [] l h = refl
  leads-keep k (e ∷ []) l h = elim (Bool-cases (p e)) [
    | inl kept ↦ rw kept l
    | inr dropped ↦ rw dropped refl
  ]
  leads-keep k (e ∷ f ∷ m) l h = elim (Bool-cases (p e)) [
    | inl kept ↦ rw kept l
    | inr dropped ↦
        rw dropped (
          leads-keep k (f ∷ m) (text_leb_trans k e.0 f.0 l (ground (arith, h))) (ground (arith, h)))
  ]

  -- Some entries of a sorted list are sorted.
  pub is_sorted-keep : (m : List (Text × V)) → is_sorted m ≡ true → is_sorted (keep p m) ≡ true
  is_sorted-keep [] h = refl
  is_sorted-keep (e ∷ m) h =
      let led : leads e.0 m ≡ true = ground (arith, h) in
      let rest : is_sorted m ≡ true = ground (arith, h) in
      elim (Bool-cases (p e)) [
        | inl kept ↦ rw kept (rw (leads-keep e.0 m led rest) (is_sorted-keep m rest))
        | inr dropped ↦ rw dropped (is_sorted-keep m rest)
      ]

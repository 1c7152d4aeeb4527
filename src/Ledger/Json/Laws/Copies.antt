-- ===== src/Ledger/Json/Laws/Copies.antt =====
-- Every copy is JSON with sorted keys.
use qq_bot_v.Prelude.{
  ℕ, ◌+◌, ◌≡◌, refl, ap, ◌∙◌, inl, inr, Bool, Bool-cases, true, ◌&&◌, List, [], ◌∷◌, All, Text,
  text_eq, ok, >>=-eq-ok, ok-injective,
}
use mathlib.Core.Path.{subst}
use qq_bot_v.Prelude.Json.{sort_entries}
use qq_bot_v.Prelude.Json.Sorting.{
  leads, is_sorted, sort_entries-is_sorted, All-sort_entries, is_sorted-keep,
}
use qq_bot_v.Prelude.Values.{
  Value, undefined, null, boolean, number, natural, negative, fraction, not_finite, string, bigint,
  negative_bigint, date, array, object, Fields, end, field, Items, nil, cons,
}
use qq_bot_v.Ledger.Json.{
  Place, Parsed, at_key, at_index, collect, fields_of, is_own, own_copies, clone_json_value,
  clone_json_items, clone_json_fields, clone_json_record,
}
use qq_bot_v.Ledger.Json.Laws.{
  is_json, all_json, fields_json, is_json_record, entries-fields_of, and_true,
}

abbrev Good : Text × Parsed Value → Type 0
Good e = (w : Value) → e.1 ≡ ok w → is_json w ≡ true

pub both_true : {a b : Bool} → a ≡ true → b ≡ true → (a && b) ≡ true
both_true p q = rw (p, q) refl

collect-fields_json :
    (l : List (Text × Parsed Value)) (kvs : List (Text × Value))
    → All Good l
    → collect l ≡ ok kvs
    → fields_json (fields_of (own_copies kvs)) ≡ true
collect-fields_json [] kvs g h =
    subst (λ t. fields_json (fields_of (own_copies t)) ≡ true) (ok-injective h) refl
collect-fields_json ((k, r) ∷ l) kvs g h =
    let (w, got, h1) = >>=-eq-ok r _ h in
    let (more, rest, h2) = >>=-eq-ok (collect l) _ h1 in
    subst (λ t. fields_json (fields_of (own_copies t)) ≡ true) (ok-injective h2)
      (elim (Bool-cases (is_own k)) [
        | inl own ↦
            rw own (both_true (both_true own (g.0 w got)) (collect-fields_json l more g.1 rest))
        | inr proto ↦ rw proto (collect-fields_json l more g.1 rest)
      ])

module _ {ℓ} {A : Type ℓ} where
  collect-leads :
      (k : Text) (l : List (Text × Parsed A)) (kvs : List (Text × A))
      → leads k l ≡ true
      → collect l ≡ ok kvs
      → leads k kvs ≡ true
  collect-leads k [] kvs s h = subst (λ t. leads k t ≡ true) (ok-injective h) refl
  collect-leads k ((j, r) ∷ l) kvs s h =
      let (w, got, h1) = >>=-eq-ok r _ h in
      let (more, rest, h2) = >>=-eq-ok (collect l) _ h1 in
      subst (λ t. leads k t ≡ true) (ok-injective h2) s

  pub collect-is_sorted :
      (l : List (Text × Parsed A)) (kvs : List (Text × A))
      → is_sorted l ≡ true
      → collect l ≡ ok kvs
      → is_sorted kvs ≡ true
  collect-is_sorted [] kvs s h = subst (λ t. is_sorted t ≡ true) (ok-injective h) refl
  collect-is_sorted ((k, r) ∷ l) kvs s h =
      let (w, got, h1) = >>=-eq-ok r _ h in
      let (more, rest, h2) = >>=-eq-ok (collect l) _ h1 in
      let (first, others) = and_true (leads k l) (is_sorted l) s in
      subst (λ t. is_sorted t ≡ true) (ok-injective h2)
        (both_true (collect-leads k l more first rest) (collect-is_sorted l more others rest))

collected-is_json_record :
    (l : List (Text × Parsed Value)) (kvs : List (Text × Value))
    → All Good l
    → collect (sort_entries l) ≡ ok kvs
    → is_json_record (fields_of (own_copies kvs)) ≡ true
collected-is_json_record l kvs g h =
    both_true
      (ap is_sorted (entries-fields_of (own_copies kvs))
        ∙ is_sorted-keep (λ e. is_own e.0) kvs
            (collect-is_sorted (sort_entries l) kvs (sort_entries-is_sorted l) h))
      (collect-fields_json (sort_entries l) kvs (All-sort_entries Good l g) h)

mutual
  clone_json_value-is_json :
      (v w : Value) (place : Place) → clone_json_value v place ≡ ok w → is_json w ≡ true
  clone_json_value-is_json null w place h = subst (λ t. is_json t ≡ true) (ok-injective h) refl
  clone_json_value-is_json (string s) w place h =
      subst (λ t. is_json t ≡ true) (ok-injective h) refl
  clone_json_value-is_json (boolean b) w place h =
      subst (λ t. is_json t ≡ true) (ok-injective h) refl
  clone_json_value-is_json (number (natural n)) w place h =
      subst (λ t. is_json t ≡ true) (ok-injective h) refl
  clone_json_value-is_json (number (negative n)) w place h =
      subst (λ t. is_json t ≡ true) (ok-injective h) refl
  clone_json_value-is_json (number (fraction n)) w place h =
      subst (λ t. is_json t ≡ true) (ok-injective h) refl
  clone_json_value-is_json (number not_finite) w place h = cc
  clone_json_value-is_json undefined w place h = cc
  clone_json_value-is_json (bigint n) w place h = cc
  clone_json_value-is_json (negative_bigint n) w place h = cc
  clone_json_value-is_json (date t) w place h = cc
  clone_json_value-is_json (array vs) w place h =
      let (ws, got, h1) = >>=-eq-ok (clone_json_items vs 0 place) _ h in
      subst (λ t. is_json t ≡ true) (ok-injective h1) (clone_json_items-all_json vs ws 0 place got)
  clone_json_value-is_json (object fs) w place h =
      let copies = clone_json_fields fs place in
      let (kvs, got, h1) = >>=-eq-ok (collect (sort_entries copies)) _ h in
      subst (λ t. is_json t ≡ true) (ok-injective h1)
        (collected-is_json_record copies kvs (clone_json_fields-Good fs place) got)

  clone_json_items-all_json :
      (vs ws : Items) (i : ℕ) (place : Place)
      → clone_json_items vs i place ≡ ok ws
      → all_json ws ≡ true
  clone_json_items-all_json nil ws i place h = subst (λ t. all_json t ≡ true) (ok-injective h) refl
  clone_json_items-all_json (cons v vs) ws i place h =
      let (u, got, h1) = >>=-eq-ok (clone_json_value v (at_index place i)) _ h in
      let (us, rest, h2) = >>=-eq-ok (clone_json_items vs (i + 1) place) _ h1 in
      subst (λ t. all_json t ≡ true) (ok-injective h2)
        (both_true (clone_json_value-is_json v u (at_index place i) got)
          (clone_json_items-all_json vs us (i + 1) place rest))

  clone_json_fields-Good : (fs : Fields) (place : Place) → All Good (clone_json_fields fs place)
  clone_json_fields-Good end place = tt
  clone_json_fields-Good (field k v fs) place =
      (λ w got. clone_json_value-is_json v w (at_key place k) got, clone_json_fields-Good fs place)

pub clone_json_record-is_json_record :
    (fs gs : Fields) (place : Place) → clone_json_record fs place ≡ ok gs → is_json_record gs ≡ true
clone_json_record-is_json_record fs gs place h =
    let copies = clone_json_fields fs place in
    let (kvs, got, h1) = >>=-eq-ok (collect (sort_entries copies)) _ h in
    subst (λ t. is_json_record t ≡ true) (ok-injective h1)
      (collected-is_json_record copies kvs (clone_json_fields-Good fs place) got)

-- ===== src/Ledger/Json/Laws.antt =====
-- JSON with sorted keys is copied as it is.
pub mod Copies
use qq_bot_v.Prelude.{
  ℕ, zero, suc, ◌+◌, ◌≡◌, refl, ap, ◌∙◌, inl, inr, Bool, true, false, ◌&&◌, Option, none, some,
  List, [], ◌∷◌, map, All, Bool-cases, Text, text_eq, Result, ok, err, ◌>>=◌, >>=-eq-ok,
  ok-injective, arith,
}
use mathlib.Core.Path.{subst, sym}
use qq_bot_v.Prelude.Json.{sort_entries}
use qq_bot_v.Prelude.Json.Sorting.{
  is_sorted, sort_entries_self, sort_entries-is_sorted, All-sort_entries,
}
use qq_bot_v.Prelude.Values.{
  Value, undefined, null, boolean, number, Number, natural, negative, fraction, not_finite, string,
  bigint, negative_bigint, date, array, object, Fields, end, field, Items, nil, cons, entries,
}
use qq_bot_v.Ledger.Json.{
  Place, ParseError, Parsed, at_key, at_index, collect, fields_of, is_own, own_copies,
  clone_json_value, clone_json_items, clone_json_fields, clone_json_record,
}

abbrev is_finite : Number → Bool
is_finite not_finite = false
is_finite _ = true

-- What JSON can hold, with sorted keys and no property `__proto__`.
abbrev mutual
  pub is_json : Value → Bool
  is_json null = true
  is_json (string s) = true
  is_json (boolean b) = true
  is_json (number n) = is_finite n
  is_json (array vs) = all_json vs
  is_json (object fs) = is_sorted (entries fs) && fields_json fs
  is_json _ = false

  pub all_json : Items → Bool
  all_json nil = true
  all_json (cons v vs) = is_json v && all_json vs

  pub fields_json : Fields → Bool
  fields_json end = true
  fields_json (field k v fs) = (is_own k && is_json v) && fields_json fs

pub and_true : (a b : Bool) → (a && b) ≡ true → (a ≡ true) × (b ≡ true)
and_true true b h = (refl, h)
and_true false b h = cc

fields_of-entries : (fs : Fields) → fields_of (entries fs) ≡ fs
fields_of-entries end = refl
fields_of-entries (field k v fs) = ap (λ t. field k v t) (fields_of-entries fs)

entries-fields_of : (kvs : List (Text × Value)) → entries (fields_of kvs) ≡ kvs
entries-fields_of [] = refl
entries-fields_of ((k, v) ∷ kvs) = ap (λ t. (k, v) ∷ t) (entries-fields_of kvs)

module _ {ℓ} {A : Type ℓ} where
  abbrev pub succeeded : List (Text × A) → List (Text × Parsed A)
  succeeded [] = []
  succeeded ((k, a) ∷ kvs) = (k, ok a) ∷ succeeded kvs

  succeeded-is_sorted : (kvs : List (Text × A)) → is_sorted (succeeded kvs) ≡ is_sorted kvs
  succeeded-is_sorted [] = refl
  succeeded-is_sorted ((k, a) ∷ []) = refl
  succeeded-is_sorted ((k, a) ∷ (j, b) ∷ kvs) = rw (succeeded-is_sorted ((j, b) ∷ kvs)) refl

  collect-succeeded : (kvs : List (Text × A)) → collect (succeeded kvs) ≡ ok kvs
  collect-succeeded [] = refl
  collect-succeeded ((k, a) ∷ kvs) = rw (collect-succeeded kvs) refl

  pub collect-sort_entries :
      (kvs : List (Text × A))
      → is_sorted kvs ≡ true
      → collect (sort_entries (succeeded kvs)) ≡ ok kvs
  collect-sort_entries kvs h =
      ap collect (sort_entries_self (succeeded kvs) (succeeded-is_sorted kvs ∙ h))
      ∙ collect-succeeded kvs

own_copies_self : (fs : Fields) → fields_json fs ≡ true → own_copies (entries fs) ≡ entries fs
own_copies_self end h = refl
own_copies_self (field k v fs) h =
    let (here, rest) = and_true (is_own k && is_json v) (fields_json fs) h in
    rw ((and_true (is_own k) (is_json v) here).0) (ap (λ t. (k, v) ∷ t) (own_copies_self fs rest))

-- JSON with sorted keys is copied as it is.
mutual
  pub clone_json_value_self :
      (v : Value) (place : Place) → is_json v ≡ true → clone_json_value v place ≡ ok v
  clone_json_value_self null place h = refl
  clone_json_value_self (string s) place h = refl
  clone_json_value_self (boolean b) place h = refl
  clone_json_value_self (number (natural n)) place h = refl
  clone_json_value_self (number (negative n)) place h = refl
  clone_json_value_self (number (fraction n)) place h = refl
  clone_json_value_self (number not_finite) place h = cc
  clone_json_value_self undefined place h = cc
  clone_json_value_self (bigint n) place h = cc
  clone_json_value_self (negative_bigint n) place h = cc
  clone_json_value_self (date t) place h = cc
  clone_json_value_self (array vs) place h = rw (clone_json_items_self vs 0 place h) refl
  clone_json_value_self (object fs) place h =
      rw
        (
          clone_json_fields_self fs place (and_true (is_sorted (entries fs)) (fields_json fs) h).1,
          collect-sort_entries (entries fs)
              (and_true (is_sorted (entries fs)) (fields_json fs) h).0,
          own_copies_self fs (and_true (is_sorted (entries fs)) (fields_json fs) h).1,
          fields_of-entries fs,
        )
        refl

  clone_json_items_self :
      (vs : Items) (i : ℕ) (place : Place)
      → all_json vs ≡ true
      → clone_json_items vs i place ≡ ok vs
  clone_json_items_self nil i place h = refl
  clone_json_items_self (cons v vs) i place h =
      rw
        (
          clone_json_value_self v (at_index place i) (and_true (is_json v) (all_json vs) h).0,
          clone_json_items_self vs (i + 1) place (and_true (is_json v) (all_json vs) h).1,
        )
        refl

  clone_json_fields_self :
      (fs : Fields) (place : Place)
      → fields_json fs ≡ true
      → clone_json_fields fs place ≡ succeeded (entries fs)
  clone_json_fields_self end place h = refl
  clone_json_fields_self (field k v fs) place h =
      let (here, rest) = and_true (is_own k && is_json v) (fields_json fs) h in
      rw
        (
          clone_json_value_self v (at_key place k) (and_true (is_own k) (is_json v) here).1,
          clone_json_fields_self fs place rest,
        )
        refl

abbrev pub is_json_record : Fields → Bool
is_json_record fs = is_sorted (entries fs) && fields_json fs

pub clone_json_record_self :
    (fs : Fields) (place : Place) → is_json_record fs ≡ true → clone_json_record fs place ≡ ok fs
clone_json_record_self fs place h =
    rw
      (
        clone_json_fields_self fs place (and_true (is_sorted (entries fs)) (fields_json fs) h).1,
        collect-sort_entries (entries fs) (and_true (is_sorted (entries fs)) (fields_json fs) h).0,
        own_copies_self fs (and_true (is_sorted (entries fs)) (fields_json fs) h).1,
        fields_of-entries fs,
      )
      refl

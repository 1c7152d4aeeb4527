-- ===== src/Prelude/Json.antt =====
-- The part of `JSON.stringify` that the program's own renderers use: quoted strings, naturals and
-- objects of rendered parts; and the order in which `sort` puts strings.
pub mod Decimals
pub mod Sorting
use Prim.Native.Nat.{ℕ, zero, suc, ◌+◌, ◌-◌, ◌*◌, ◌/◌, ◌%◌}
use mathlib.Core.Path.{◌≡◌, refl, ap, ◌∙◌}
use mathlib.Core.Logic.{inl, inr}
use native.Mathlib.Omega.{arith}
use mathlib.Core.Bool.{Bool, true, false, ◌&&◌, ◌||◌}
use mathlib.Core.Option.{some}
use mathlib.Core.List.{List, [], ◌∷◌, ◌++◌}
use qq_bot_v.Prelude.Tests.{nat_eq, ltb, leb, ◌==◌, if◌then◌else◌, Bool-cases}
use qq_bot_v.Prelude.Dict.{lookup}
use qq_bot_v.Prelude.Strings.{Text, text_eq, text_beq_iff}

decimal_from : ℕ → ℕ → Text → Text
decimal_from zero n rest = rest
decimal_from (suc fuel) n rest = elim (ltb n 10) [
  | true ↦ (48 + n) ∷ rest
  | false ↦ decimal_from fuel (n / 10) ((48 + n % 10) ∷ rest)
]

-- `String(n)`; a number has at most `n + 1` digits.
unfoldable pub decimal : ℕ → Text
unfolding decimal_from
decimal n = decimal_from (suc n) n []

-- The number that a decimal numeral stands for.
abbrev pub decimal_value : ℕ → Text → ℕ
decimal_value acc [] = acc
decimal_value acc (c ∷ s) = decimal_value (acc * 10 + (c - 48)) s

abbrev hex_digit : ℕ → ℕ
hex_digit d = if ltb d 10 then 48 + d else 87 + d

abbrev unicode_escape : ℕ → Text
unicode_escape c =
    92
    ∷ b'u'
    ∷ hex_digit (c / 4096)
    ∷ hex_digit (c / 256 % 16)
    ∷ hex_digit (c / 16 % 16)
    ∷ hex_digit (c % 16)
    ∷ []

abbrev is_high : ℕ → Bool
is_high c = leb 0xD800 c && ltb c 0xDC00

abbrev is_low : ℕ → Bool
is_low c = leb 0xDC00 c && ltb c 0xE000

abbrev escape_unit : ℕ → Text
escape_unit c =
    if c == 34
    then 92 ∷ 34 ∷ []
    else if c == 92
    then 92 ∷ 92 ∷ []
    else if c == 8
    then 92 ∷ b'b' ∷ []
    else if c == 12
    then 92 ∷ b'f' ∷ []
    else if c == 10
    then 92 ∷ b'n' ∷ []
    else if c == 13
    then 92 ∷ b'r' ∷ []
    else if c == 9
    then 92 ∷ b't' ∷ []
    else if ltb c 32
    then unicode_escape c
    else c ∷ []

abbrev starts_low : Text → Bool
starts_low [] = false
starts_low (d ∷ s) = is_low d

-- `paired` says that the unit before is a high surrogate that the current unit completes.
escape_from : Bool → Text → Text
escape_from paired [] = []
escape_from paired (c ∷ s) =
    let next_is_low = starts_low s in
    (if paired
      then c ∷ []
      else if is_high c
      then (if next_is_low then c ∷ [] else unicode_escape c)
      else if is_low c
      then unicode_escape c
      else escape_unit c)
    ++ escape_from (is_high c && next_is_low) s

unfoldable pub json_string : Text → Text
unfolding escape_from
json_string s = 34 ∷ escape_from false s ++ 34 ∷ []

abbrev json_members : List (Text × Text) → Text
json_members [] = []
json_members ((k, v) ∷ []) = json_string k ++ b':' ∷ v
json_members ((k, v) ∷ m ∷ ms) = json_string k ++ b':' ∷ v ++ b',' ∷ json_members (m ∷ ms)

-- An object whose values are rendered.
unfoldable pub json_object : List (Text × Text) → Text
unfolding json_string
json_object ms = b'{' ∷ json_members ms ++ b'}' ∷ []

-- The order of strings by code units.
abbrev pub text_leb : Text → Text → Bool
text_leb [] t = true
text_leb (c ∷ s) [] = false
text_leb (c ∷ s) (d ∷ t) = ltb c d || (c == d && text_leb s t)

module _ {ℓ} {V : Type ℓ} where
  abbrev insert_sorted : Text × V → List (Text × V) → List (Text × V)
  insert_sorted e [] = e ∷ []
  insert_sorted e (f ∷ m) = if text_leb e.0 f.0 then e ∷ f ∷ m else f ∷ insert_sorted e m

  -- The entries in the order of `Object.keys(value).sort()`.
  unfoldable pub sort_entries : List (Text × V) → List (Text × V)
  sort_entries [] = []
  sort_entries (e ∷ m) = insert_sorted e (sort_entries m)

text_leb_self : (s : Text) → text_leb s s ≡ true
text_leb_self [] = refl
text_leb_self (c ∷ s) = ground (arith, text_leb_self s)

module _ {ℓ} {V : Type ℓ} where
  lookup-insert_sorted :
      (j : Text) (e : Text × V) (m : List (Text × V))
      → lookup j (insert_sorted e m) ≡ (if e.0 == j then some e.1 else lookup j m)
  lookup-insert_sorted j e [] = refl
  lookup-insert_sorted j e (f ∷ m) = elim (Bool-cases (text_leb e.0 f.0)) [
    | inl before ↦ rw before refl
    | inr behind ↦ rw behind (
        ground (
          arith,
          lookup-insert_sorted j e m,
          text_beq_iff e.0 j,
          text_beq_iff f.0 j,
          text_leb_self j,
        ))
  ]

  -- Sorting the keys changes no property.
  pub lookup-sort_entries :
      (j : Text) (m : List (Text × V)) → lookup j (sort_entries m) ≡ lookup j m
  unfolding sort_entries
  lookup-sort_entries j [] = refl
  lookup-sort_entries j (e ∷ m) =
      lookup-insert_sorted j e (sort_entries m)
      ∙ ap (λ o. if e.0 == j then some e.1 else o) (lookup-sort_entries j m)

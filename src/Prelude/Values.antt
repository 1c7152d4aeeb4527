-- ===== src/Prelude/Values.antt =====
-- JavaScript values of type `unknown`, as the parsers of stored state meet them.
use Prim.Native.Nat.{ℕ, suc}
use mathlib.Core.Bool.{Bool, true, false, ◌&&◌, ◌||◌}
use mathlib.Core.Option.{Option, none, some}
use mathlib.Core.List.{List, [], ◌∷◌}
use qq_bot_v.Prelude.Tests.{leb, ◌==◌, if◌then◌else◌}
use qq_bot_v.Prelude.Dict.{has}
use qq_bot_v.Prelude.Strings.{Text, text_eq}

-- A number by what the code asks of it: an integer `natural n`, an integer `-(n + 1)`, a finite
-- number that is no integer (the payload tells such numbers apart), or NaN and the infinities.
pub data Number : Type 0 where
  natural : ℕ → Number
  negative : ℕ → Number
  fraction : ℕ → Number
  not_finite : Number

-- A valid time value of a `Date`: milliseconds since the epoch, or `n + 1` before it.
pub data Instant : Type 0 where
  after_epoch before_epoch : ℕ → Instant

mutual
  pub data Value : Type 0 where
    undefined : Value
    null : Value
    boolean : Bool → Value
    number : Number → Value
    string : Text → Value
    bigint : ℕ → Value
    negative_bigint : ℕ → Value
    date : Option Instant → Value
    array : Items → Value
    object : Fields → Value

  pub data Fields : Type 0 where
    end : Fields
    field : Text → Value → Fields → Fields

  pub data Items : Type 0 where
    nil : Items
    cons : Value → Items → Items

abbrev pub max_safe_integer : ℕ
max_safe_integer = 9007199254740991

-- `Number.isSafeInteger(value) && value >= 0`, with the number.
unfoldable pub non_negative_safe : Value → Option ℕ
non_negative_safe (number (natural n)) = elim (leb n max_safe_integer) [
  | true ↦ some n
  | false ↦ none
]
non_negative_safe _ = none

abbrev pub entries : Fields → List (Text × Value)
entries end = []
entries (field k v fs) = (k, v) ∷ entries fs

-- A property, `undefined` where it is missing.
abbrev pub prop : Text → Fields → Value
prop key end = undefined
prop key (field k v fs) = if k == key then v else prop key fs

abbrev pub has_own : Text → Fields → Bool
has_own key end = false
has_own key (field k v fs) = k == key || has_own key fs

-- An object that is no array, and that JSON can hold.
abbrev pub as_record : Value → Option Fields
as_record (object fs) = some fs
as_record _ = none

abbrev pub is_text : Text → Value → Bool
is_text s (string t) = t == s
is_text s _ = false

abbrev pub all_own : List Text → Fields → Bool
all_own [] fs = true
all_own (k ∷ ks) fs = has_own k fs && all_own ks fs

abbrev pub keys_within : List Text → Fields → Bool
keys_within allowed end = true
keys_within allowed (field k v fs) = has k allowed && keys_within allowed fs

-- `Number.isSafeInteger(value) && value > 0`, with the number.
unfoldable pub positive_safe : Value → Option ℕ
unfolding non_negative_safe
positive_safe v = elim (non_negative_safe v) [ some (suc n) ↦ some (suc n) | _ ↦ none ]

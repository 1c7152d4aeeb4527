-- ===== src/Prelude/Strings.antt =====
-- JavaScript strings as lists of UTF-16 code units, so that `length` and `slice` count as there.
pub mod Trimming
use Prim.Native.Nat.{ℕ}
use Prim.Native.Char.{code}
use Prim.Native.String.{String}
use mathlib.Core.Path.{◌≡◌}
use mathlib.Core.Logic.{◌↔◌}
use mathlib.Core.Bool.{Bool, true, false, ◌&&◌, ◌||◌}
use mathlib.Core.List.{List, [], ◌∷◌, reverse}
use qq_bot_v.Prelude.Tests.{Eq, nat_eq, leb, list_beq, list_beq_iff, ◌==◌}

abbrev pub Text : Type 0
Text = List ℕ

-- A literal of the source; every one that is modelled stays in the basic plane.
abbrev pub text : String → Text
text String.[] = []
text (String.◌∷◌ c s) = code c ∷ text s

unfoldable pub text_beq : Text → Text → Bool
text_beq s t = list_beq nat_eq.same s t

pub text_beq_iff : (s t : Text) → (text_beq s t ≡ true) ↔ (s ≡ t)
unfolding text_beq
text_beq_iff s t = list_beq_iff nat_eq s t

instance abbrev pub text_eq : Eq Text
text_eq = record { same = text_beq; same_iff = text_beq_iff }

-- `String.prototype.startsWith`.
abbrev pub starts_with : Text → Text → Bool
starts_with s [] = true
starts_with [] (c ∷ p) = false
starts_with (d ∷ s) (c ∷ p) = d == c && starts_with s p

-- `String.prototype.includes`.
abbrev pub includes : Text → Text → Bool
includes [] p = starts_with [] p
includes (d ∷ s) p = starts_with (d ∷ s) p || includes s p

abbrev pub is_digit : ℕ → Bool
is_digit c = leb b'0' c && leb c b'9'

-- The white space and line ends that `trim` removes.
unfoldable pub is_space : ℕ → Bool
is_space c =
    (leb 9 c && leb c 13)
    || c == 32
    || c == 0xA0
    || c == 0x1680
    || (leb 0x2000 c && leb c 0x200A)
    || c == 0x2028
    || c == 0x2029
    || c == 0x202F
    || c == 0x205F
    || c == 0x3000
    || c == 0xFEFF

abbrev trim_start : Text → Text
trim_start [] = []
trim_start (c ∷ s) = elim (is_space c) [ true ↦ trim_start s | false ↦ c ∷ s ]

-- `String.prototype.trim`.
unfoldable pub trim : Text → Text
unfolding is_space
trim s = reverse (trim_start (reverse (trim_start s)))

abbrev pub is_empty : Text → Bool
is_empty [] = true
is_empty (c ∷ s) = false

-- `!value.trim()`.
unfoldable pub is_blank : Text → Bool
unfolding trim
is_blank s = is_empty (trim s)

abbrev pub all_digits : Text → Bool
all_digits [] = true
all_digits (c ∷ s) = is_digit c && all_digits s

-- `/^[1-9]\d*$/`.
abbrev pub is_positive_decimal : Text → Bool
is_positive_decimal [] = false
is_positive_decimal (c ∷ s) = leb b'1' c && leb c b'9' && all_digits s

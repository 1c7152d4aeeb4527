-- ===== src/Ledger/Json.antt =====
-- What the parsers of src/agent/agent-ledger-projection.ts share: the place and the kind of an
-- error, the required keys of an object, and the copy of a JSON value. An error has the place of
-- the source's text as a list of steps.
pub mod Laws
use qq_bot_v.Prelude.{
  ◌==◌, nat_eq, ℕ, zero, suc, ◌+◌, Bool, true, false, Option, none, some, List, [], ◌∷◌, ◌++◌, not,
  keep, text, text_eq, Text, is_blank, is_positive_decimal, has, if◌then◌else◌, Result, ok, err,
  ◌>>=◌, ◌>>◌,
}
use qq_bot_v.Prelude.Json.{sort_entries, decimal_value}
use qq_bot_v.Prelude.Values.{
  Value, undefined, null, boolean, number, not_finite, string, array, object, Fields, end, field,
  Items, nil, cons, as_record, has_own, non_negative_safe, natural, bigint, date, Instant, prop,
}
use qq_bot_v.Mailbox.InboxCursors.{CursorError}

pub data Step : Type 0 where
  key : Text → Step
  index : ℕ → Step

abbrev pub Place : Type 0
Place = List Step

pub data Problem : Type 0 where
  not_an_object is_required not_supported : Problem
  bad_id bad_date unknown_entry_type unsupported_version : Problem
  bad_text not_boolean not_a_string not_an_array : Problem
  bad_reason bad_entry_id not_safe not_positive : Problem
  bad_head bad_platform bad_kind bad_role bad_block_type bad_media_id : Problem
  bad_tool_content invalid_json bad_mailbox_key not_finite_number not_json : Problem
  bad_inbox_cursors : CursorError → Problem

-- `AgentLedgerIntegrityError`.
pub record ParseError : Type 0 where
  pub place : Place
  pub problem : Problem

abbrev pub Parsed {ℓ} : Type ℓ → Type ℓ
Parsed A = Result ParseError A

abbrev pub reject {ℓ} : {A : Type ℓ} → Place → Problem → Parsed A
reject place problem = err (record { place = place; problem = problem })

abbrev pub at_key : Place → Text → Place
at_key place k = place ++ key k ∷ []

abbrev pub at_index : Place → ℕ → Place
at_index place i = place ++ index i ∷ []

-- `if (!test) throw`.
abbrev pub demand : Bool → Place → Problem → Parsed (Unit {0})
demand true place problem = ok tt
demand false place problem = reject place problem

abbrev pub demand_some {ℓ} : {A : Type ℓ} → Option A → Place → Problem → Parsed A
demand_some (some a) place problem = ok a
demand_some none place problem = reject place problem

abbrev pub require_record : Value → Place → Parsed Fields
require_record value place = demand_some (as_record value) place not_an_object

abbrev pub require_present : List Text → Fields → Place → Parsed (Unit {0})
require_present [] fs place = ok tt
require_present (k ∷ ks) fs place =
    demand (has_own k fs) (at_key place k) is_required >> require_present ks fs place

abbrev pub require_allowed : List Text → Fields → Place → Parsed (Unit {0})
require_allowed allowed end place = ok tt
require_allowed allowed (field k v fs) place =
    demand (has k allowed) (at_key place k) not_supported >> require_allowed allowed fs place

unfoldable pub require_exact_keys : Fields → List Text → List Text → Place → Parsed (Unit {0})
require_exact_keys fs required optional place =
    require_present required fs place >> require_allowed (required ++ optional) fs place

abbrev pub as_string : Value → Option Text
as_string (string s) = some s
as_string _ = none

-- A string with `value.trim() !== ''`.
abbrev pub require_non_empty_string : Value → Place → Parsed Text
require_non_empty_string value place = do
  s ← demand_some (as_string value) place bad_text
  if is_blank s then reject place bad_text else ok s

abbrev pub require_string : Value → Place → Parsed Text
require_string value place = demand_some (as_string value) place not_a_string

abbrev pub require_non_negative_safe_integer : Value → Place → Parsed ℕ
require_non_negative_safe_integer value place = demand_some (non_negative_safe value) place not_safe

abbrev pub nonzero : Place → ℕ → Parsed ℕ
nonzero place zero = reject place not_positive
nonzero place (suc n) = ok (suc n)

abbrev pub require_positive_safe_integer : Value → Place → Parsed ℕ
require_positive_safe_integer value place =
    require_non_negative_safe_integer value place >>= λ n. nonzero place n

-- The entry id is kept as the number that its decimal stands for.
abbrev pub parse_nullable_entry_id : Value → Place → Parsed (Option ℕ)
parse_nullable_entry_id null place = ok none
parse_nullable_entry_id (string s) place =
    if is_positive_decimal s then ok (some (decimal_value 0 s)) else reject place bad_entry_id
parse_nullable_entry_id _ place = reject place bad_entry_id

module _ {ℓ} {A : Type ℓ} where
  -- The first error in the order of the list, or all values.
  abbrev pub collect : List (Text × Parsed A) → Parsed (List (Text × A))
  collect [] = ok []
  collect ((k, r) ∷ rs) = do a ← r; more ← collect rs; ok ((k, a) ∷ more)

abbrev pub fields_of : List (Text × Value) → Fields
fields_of [] = end
fields_of ((k, v) ∷ kvs) = field k v (fields_of kvs)

-- The assignment of `__proto__` sets the prototype of the copy or does nothing: it makes no
-- property. What the copy inherits then, such as a `type`, is not modelled.
abbrev pub is_own : Text → Bool
is_own k = not (k == text "__proto__")

abbrev pub own_copies : List (Text × Value) → List (Text × Value)
own_copies kvs = keep (λ e. is_own e.0) kvs

-- `cloneJsonRecord` copies the properties in the order of their sorted keys: here each property is
-- copied first, and the first error is looked for in the sorted order.
abbrev mutual
  pub clone_json_value : Value → Place → Parsed Value
  clone_json_value null place = ok null
  clone_json_value (string s) place = ok (string s)
  clone_json_value (boolean b) place = ok (boolean b)
  clone_json_value (number not_finite) place = reject place not_finite_number
  clone_json_value (number n) place = ok (number n)
  clone_json_value (array vs) place = clone_json_items vs 0 place >>= λ copies. ok (array copies)
  clone_json_value (object fs) place =
      collect (sort_entries (clone_json_fields fs place)) >>= λ copies.
      ok (object (fields_of (own_copies copies)))
  clone_json_value _ place = reject place not_json

  pub clone_json_items : Items → ℕ → Place → Parsed Items
  clone_json_items nil i place = ok nil
  clone_json_items (cons v vs) i place = do
    w ← clone_json_value v (at_index place i)
    ws ← clone_json_items vs (i + 1) place
    ok (cons w ws)

  pub clone_json_fields : Fields → Place → List (Text × Parsed Value)
  clone_json_fields end place = []
  clone_json_fields (field k v fs) place =
      (k, clone_json_value v (at_key place k)) ∷ clone_json_fields fs place

abbrev pub clone_json_record : Fields → Place → Parsed Fields
clone_json_record fs place = collect (sort_entries (clone_json_fields fs place)) >>= λ copies.
    ok (fields_of (own_copies copies))

abbrev pub clone_json_object : Value → Place → Parsed Fields
clone_json_object value place = require_record value place >>= λ fs. clone_json_record fs place

-- A property of a record and its place.
abbrev pub member {ℓ} : {A : Type ℓ} → Fields → Place → Text → (Value → Place → Parsed A) → Parsed A
member fs place k parse = parse (prop k fs) (at_key place k)

abbrev pub member_when_present {ℓ} :
    {A : Type ℓ} → Fields → Place → Text → (Value → Place → Parsed A) → Parsed (Option A)
member_when_present fs place k parse = elim (prop k fs) [
  | undefined ↦ ok none
  | v ↦ parse v (at_key place k) >>= λ a. ok (some a)
]

abbrev pub as_array : Value → Option Items
as_array (array vs) = some vs
as_array _ = none

abbrev pub as_boolean : Value → Option Bool
as_boolean (boolean b) = some b
as_boolean _ = none

abbrev pub as_positive_bigint : Value → Option ℕ
as_positive_bigint (bigint (suc n)) = some (suc n)
as_positive_bigint _ = none

abbrev pub as_date : Value → Option Instant
as_date (date t) = t
as_date _ = none

abbrev pub is_version : ℕ → Value → Bool
is_version n (number (natural m)) = n == m
is_version n _ = false

-- `map` over an array, with the place of each item.
abbrev pub parse_items {ℓ} :
    {A : Type ℓ} → (Value → Place → Parsed A) → Items → ℕ → Place → Parsed (List A)
parse_items parse nil i place = ok []
parse_items parse (cons v vs) i place = do
  a ← parse v (at_index place i)
  more ← parse_items parse vs (i + 1) place
  ok (a ∷ more)

abbrev pub parse_array {ℓ} :
    {A : Type ℓ} → (Value → Place → Parsed A) → Problem → Value → Place → Parsed (List A)
parse_array parse problem value place =
    demand_some (as_array value) place problem >>= λ vs. parse_items parse vs 0 place

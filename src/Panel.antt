-- ===== src/Panel.antt =====
-- vps/store.py: the panel's tables. A row is the dict of its columns beside its primary key, an
-- `UPDATE … WHERE` rewrites the rows that meet the condition, and an exception rolls its statements
-- back. The text of an exception names what is refused without the list of the names.
pub mod Users
pub mod Hosts
pub mod Subscriptions
use kui_local_multi_exit.Prelude.{
  ℕ, suc, ◌^◌, ltb, ◌<>◌, ◌&&◌, ◌||◌, String, ◌==◌, Bool, true, false, not, Option, none, some,
  List, [], ◌∷◌, any, if◌then◌else◌,
}
use kui_local_multi_exit.Prelude.Dict
use kui_local_multi_exit.Prelude.Dict.{Dict}
use kui_local_multi_exit.Prelude.Exec.{
  Exec, Failure, pure, raise, value_error, integrity_error, database_error, overflow_error, ◌>>◌,
}
use kui_local_multi_exit.Prelude.Int.{ℤ, pos, negsuc}
use kui_local_multi_exit.Prelude.Text.{decimal, int, strip}
use kui_local_multi_exit.Json.{Json, null, bool, num, str, arr, obj}

abbrev pub Row : Type 0
Row = Dict Json

abbrev pub elem : String → List String → Bool
elem x = any (x ==◌)

-- set(fields) - allowed is not empty
unfoldable pub has_unknown : List String → Row → Bool
has_unknown allowed [] = false
has_unknown allowed ((k, v) ∷ fields) =
    let rest = has_unknown allowed fields in if elem k allowed then rest else true

-- The columns that the schema declares INTEGER; the others are TEXT.
abbrev integer_columns : List String
integer_columns =
    "id" ∷ "port" ∷ "enable" ∷ "traffic_used" ∷ "traffic_limit" ∷ "expire_time" ∷ "created_at"
    ∷ "egress_revision" ∷ "egress_applied_revision" ∷ "socks5_port" ∷ "target_port" ∷ "target_id"
    ∷ "subscription_id" ∷ "last_fetched_at" ∷ []

abbrev as_integer : Json → Json
as_integer (bool b) = num (pos (if b then 1 else 0))
as_integer (str s) = elim (int (strip s)) [ none ↦ str s | some n ↦ num n ]
as_integer v = v

abbrev int_text : ℤ → String
int_text (pos n) = decimal n
int_text (negsuc n) = "-" <> decimal (suc n)

abbrev as_text : Json → Json
as_text (bool b) = str (if b then "1" else "0")
as_text (num n) = str (int_text n)
as_text v = v

-- What SQLite keeps of a value, by the affinity of the column. A text in an INTEGER column becomes a
-- number if it is an integer's; one of a real number, which it would convert too, stays a text here.
abbrev pub stored : String → Json → Json
stored k v = if elem k integer_columns then as_integer v else as_text v

-- SET k = ?, … for each of the fields
unfoldable pub write_fields : Row → Row → Row
write_fields [] row = row
write_fields ((k, v) ∷ fields) row = write_fields fields (Dict.put k (stored k v) row)

-- An integer of 64 bits.
abbrev is_bindable : ℤ → Bool
is_bindable (pos n) = ltb n (2 ^ 63)
is_bindable (negsuc n) = ltb n (2 ^ 63)

-- What binding a value to a parameter raises.
abbrev binding_failure : Json → Option Failure
binding_failure (num n) =
    if is_bindable n
    then none
    else some (overflow_error "Python int too large to convert to SQLite INTEGER")
binding_failure (arr vs) = some (database_error "type 'list' is not supported")
binding_failure (obj d) = some (database_error "type 'dict' is not supported")
binding_failure v = none

abbrev or_failure : Option Failure → Option Failure → Option Failure
or_failure none other = other
or_failure (some e) other = some e

abbrev first_failure : Row → Option Failure
first_failure [] = none
first_failure ((k, v) ∷ fields) = or_failure (binding_failure v) (first_failure fields)

abbrev is_null : Json → Bool
is_null null = true
is_null (bool b) = false
is_null (num n) = false
is_null (str s) = false
is_null (arr vs) = false
is_null (obj d) = false

abbrev has_null : Row → Bool
has_null [] = false
has_null ((k, v) ∷ fields) = is_null v || has_null fields

-- What a statement raises that writes the fields to the rows it meets, if there are any: all of the
-- columns are NOT NULL.
unfoldable pub value_failure : Bool → Row → Option Failure
value_failure found fields =
    or_failure (first_failure fields) (
      if has_null fields && found
      then some (integrity_error "NOT NULL constraint failed")
      else none)

abbrev refuse : {S : Type 0} → Option Failure → Exec S Unit
refuse none = pure tt
refuse (some e) = raise e

abbrev pub check_values : {S : Type 0} → Bool → Row → Exec S Unit
check_values found fields = refuse (value_failure found fields)

abbrev pub is_some : {A : Type 0} → Option A → Bool
is_some none = false
is_some (some a) = true

abbrev pub is_none : Row → Bool
is_none [] = true
is_none (x ∷ xs) = false

-- What the updates ask of their keyword arguments.
abbrev pub check_fields : {S : Type 0} → List String → Row → Exec S Unit
check_fields allowed fields =
    if has_unknown allowed fields
    then raise (value_error "unsupported fields")
    else if is_none fields
    then raise (value_error "no fields to update")
    else pure tt

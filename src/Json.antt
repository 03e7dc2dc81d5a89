-- ===== src/Json.antt =====
-- The JSON values that the program keeps in `dict[str, Any]` fields, and `json.dumps` with
-- `ensure_ascii=False`. Numbers are integers: no value that is read back is a fraction.
use Prim.Native.Char.{Char, code}
use kui_local_multi_exit.Prelude.{
  ℕ, suc, ◌/◌, ◌%◌, String, ◌<>◌, Bool, true, false, Option, none, some, eqb, ltb, ◌==◌,
  if◌then◌else◌, not,
}
use kui_local_multi_exit.Prelude.Int.{ℤ, pos, negsuc, eqz}
use kui_local_multi_exit.Prelude.Text.{decimal, is_empty}
use Prim.Native.String.{char_at}

mutual
  pub data Json : Type 0 where
    null : Json
    bool : Bool → Json
    num : ℤ → Json
    str : String → Json
    arr : Items → Json
    obj : Fields → Json

  pub data Items : Type 0 where
    nil : Items
    cons : Json → Items → Items

  pub data Fields : Type 0 where
    end : Fields
    field : String → Json → Fields → Fields

-- d.get(k)
unfoldable pub lookup : String → Fields → Option Json
lookup k end = none
lookup k (field j v fs) = let rest = lookup k fs in if j == k then some v else rest

-- {**d, k: v}: a key that is there keeps its place.
unfoldable pub assign : String → Json → Fields → Fields
assign k v end = field k v end
assign k v (field j w fs) =
    let rest = assign k v fs in if j == k then field j v fs else field j w rest

-- {**d, **e}
unfoldable pub merge : Fields → Fields → Fields
unfolding assign
merge d end = d
merge d (field k v fs) = merge (assign k v d) fs

-- {k: v for k, v in d.items() if k != key}
unfoldable pub without : String → Fields → Fields
without k end = end
without k (field j w fs) = let rest = without k fs in if j == k then rest else field j w rest

unfoldable pub item_count : Items → ℕ
item_count nil = 0
item_count (cons x xs) = suc (item_count xs)

-- bool(v)
unfoldable pub truthy : Json → Bool
truthy null = false
truthy (bool b) = b
truthy (num n) = not (eqz n (pos 0))
truthy (str s) = not (is_empty s)
truthy (arr nil) = false
truthy (arr (cons x xs)) = true
truthy (obj end) = false
truthy (obj (field k v fs)) = true

-- d.get(k, {}) where the value is a dict
unfoldable pub lookup_obj : String → Fields → Fields
unfolding lookup
lookup_obj k fs = elim (lookup k fs) [ some (obj o) ↦ o | _ ↦ end ]

-- d.get(k) where the value is a text or missing
unfoldable pub lookup_str : String → Fields → Option String
unfolding lookup
lookup_str k fs = elim (lookup k fs) [ some (str s) ↦ some s | _ ↦ none ]

-- bool(d.get(k))
unfoldable pub lookup_true : String → Fields → Bool
unfolding lookup truthy
lookup_true k fs = elim (lookup k fs) [ some v ↦ truthy v | none ↦ false ]

-- len(d.get(k, [])) where the value is a list
unfoldable pub lookup_count : String → Fields → ℕ
unfolding lookup item_count
lookup_count k fs = elim (lookup k fs) [ some (arr xs) ↦ item_count xs | _ ↦ 0 ]

abbrev hex_digit : ℕ → Char
hex_digit n = char_at "0123456789abcdef" n

-- One character of a JSON text.
escape : Char → String → String
escape c rest =
    let n = code c in
    if eqb n 34
    then "\\\"" <> rest
    else if eqb n 92
    then "\\\\" <> rest
    else if eqb n 10
    then "\\n" <> rest
    else if eqb n 13
    then "\\r" <> rest
    else if eqb n 9
    then "\\t" <> rest
    else if eqb n 8
    then "\\b" <> rest
    else if eqb n 12
    then "\\f" <> rest
    else if ltb n 32
    then "\\u00" <> String.◌∷◌ (hex_digit (n / 16)) (String.◌∷◌ (hex_digit (n % 16)) rest)
    else String.◌∷◌ c rest

quoted_body : String → String
unfolding escape
quoted_body String.[] = "\""
quoted_body (String.◌∷◌ c s) = escape c (quoted_body s)

abbrev quoted : String → String
quoted s = "\"" <> quoted_body s

number_text : ℤ → String
unfolding decimal
number_text (pos n) = decimal n
number_text (negsuc n) = "-" <> decimal (suc n)

unfoldable mutual
  unfolding quoted_body number_text

  -- json.dumps(value, ensure_ascii=False)
  pub dumps : Json → String
  dumps null = "null"
  dumps (bool true) = "true"
  dumps (bool false) = "false"
  dumps (num n) = number_text n
  dumps (str s) = quoted s
  dumps (arr xs) = "[" <> dumps_items xs
  dumps (obj fs) = "{" <> dumps_fields fs

  pub dumps_items : Items → String
  dumps_items nil = "]"
  dumps_items (cons x nil) = dumps x <> "]"
  dumps_items (cons x (cons y xs)) = dumps x <> (", " <> dumps_items (cons y xs))

  pub dumps_fields : Fields → String
  dumps_fields end = "}"
  dumps_fields (field k v end) = quoted k <> (": " <> (dumps v <> "}"))
  dumps_fields (field k v (field j w fs)) =
      quoted k <> (": " <> (dumps v <> (", " <> dumps_fields (field j w fs))))

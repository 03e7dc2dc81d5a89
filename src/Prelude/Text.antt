-- ===== src/Prelude/Text.antt =====
-- Operations of Python's `str` that the program uses, over the native texts. Case conversion and
-- the digit test are those of ASCII.
pub mod Lines
use Prim.Native.Nat.{ℕ, zero, suc, ◌+◌, ◌-◌, ◌*◌, ◌/◌, ◌%◌}
use Prim.Native.Char.{Char, code}
use Prim.Native.String.{String, ◌++◌, char_at}
use mathlib.Core.Bool.{Bool, false, not, ◌&&◌, ◌||◌}
use mathlib.Core.Option.{Option, none, some}
use text.Mathlib.Text.{◌==◌, starts_with}
use mathlib.Core.List.{List, [], ◌∷◌}
use kui_local_multi_exit.Prelude.Int.{ℤ, pos, neg}
use kui_local_multi_exit.Prelude.Lists.{keep}
use kui_local_multi_exit.Prelude.Tests.{ltb, leb, eqb, if◌then◌else◌}

abbrev pub nil : String
nil = ""

abbrev pub is_empty : String → Bool
is_empty s = s == ""

abbrev pub upper_char : Char → Char
upper_char c =
    if leb 97 (code c) && leb (code c) 122
    then char_at "ABCDEFGHIJKLMNOPQRSTUVWXYZ" (code c - 97)
    else c

-- s.upper()
unfoldable pub upper : String → String
upper String.[] = ""
upper (String.◌∷◌ c s) = String.◌∷◌ (upper_char c) (upper s)

abbrev pub lower_char : Char → Char
lower_char c =
    if leb 65 (code c) && leb (code c) 90
    then char_at "abcdefghijklmnopqrstuvwxyz" (code c - 65)
    else c

-- s.lower()
unfoldable pub lower : String → String
lower String.[] = ""
lower (String.◌∷◌ c s) = String.◌∷◌ (lower_char c) (lower s)

-- s[:n], in characters
unfoldable pub prefix : ℕ → String → String
prefix zero s = ""
prefix (suc n) String.[] = ""
prefix (suc n) (String.◌∷◌ c s) = String.◌∷◌ c (prefix n s)

abbrev pub is_digit : Char → Bool
is_digit c = leb 48 (code c) && leb (code c) 57

abbrev pub is_upper : Char → Bool
is_upper c = leb 65 (code c) && leb (code c) 90

unfoldable pub digits_from : ℕ → String → Option ℕ
digits_from n String.[] = some n
digits_from n (String.◌∷◌ c s) =
    let rest = digits_from (n * 10 + (code c - 48)) s in if is_digit c then rest else none

-- A non-empty run of digits, as `\d+` matches it and `int` reads it.
unfoldable pub digits : String → Option ℕ
unfolding digits_from
digits s = if is_empty s then none else digits_from 0 s

unfoldable pub decimal_fuel : ℕ → ℕ → String → String
decimal_fuel zero n acc = acc
decimal_fuel (suc f) n acc =
    let acc' = String.◌∷◌ (char_at "0123456789" (n % 10)) acc in
    let rest = decimal_fuel f (n / 10) acc' in if ltb n 10 then acc' else rest

-- str(n): a number has no more digits than its value plus one.
unfoldable pub decimal : ℕ → String
unfolding decimal_fuel
decimal n = decimal_fuel (suc n) n ""

-- f"{n:02d}"
unfoldable pub decimal_02 : ℕ → String
unfolding decimal
decimal_02 n = if ltb n 10 then "0" ++ decimal n else decimal n

-- What is left of `s` behind the prefix `p`.
unfoldable pub after_prefix : String → String → Option String
after_prefix String.[] s = some s
after_prefix (String.◌∷◌ c p) String.[] = none
after_prefix (String.◌∷◌ c p) (String.◌∷◌ d s) =
    let rest = after_prefix p s in if eqb (code c) (code d) then rest else none

-- re.fullmatch("[A-Z]{2}", s)
unfoldable pub is_country_code : String → Bool
is_country_code (String.◌∷◌ a (String.◌∷◌ b String.[])) = is_upper a && is_upper b
is_country_code _ = false

-- `p in s`
unfoldable pub contains : String → String → Bool
contains p String.[] = is_empty p
contains p (String.◌∷◌ c s) = starts_with (String.◌∷◌ c s) p || contains p s

-- s.partition(sep) for the separator " -> ": the head, and whether the separator was found
unfoldable pub before : String → String → Option String
before sep String.[] = none
before sep (String.◌∷◌ c s) =
    let rest = before sep s in
    if starts_with (String.◌∷◌ c s) sep
    then some ""
    else elim rest [ none ↦ none | some h ↦ some (String.◌∷◌ c h) ]

abbrev pub is_space : Char → Bool
is_space c =
    eqb (code c) 32 || ((leb 9 (code c) && leb (code c) 13) || (leb 28 (code c) && leb (code c) 31))

unfoldable pub lstrip : String → String
lstrip String.[] = ""
lstrip (String.◌∷◌ c s) = let rest = lstrip s in if is_space c then rest else String.◌∷◌ c s

-- The text without its trailing blanks: a blank stays where something else follows it.
unfoldable pub rstrip : String → String
rstrip String.[] = ""
rstrip (String.◌∷◌ c s) =
    let rest = rstrip s in if is_space c && is_empty rest then "" else String.◌∷◌ c rest

-- s.strip()
unfoldable pub strip : String → String
unfolding lstrip rstrip
strip s = rstrip (lstrip s)

abbrev close_word : String → List String → List String
close_word w ws = if is_empty w then ws else w ∷ ws

-- The pieces of `s` between characters that `sep` names; the first piece is `.0`.
pieces : (Char → Bool) → String → String × List String
pieces sep String.[] = ("", [])
pieces sep (String.◌∷◌ c s) =
    let r = pieces sep s in if sep c then ("", r.0 ∷ r.1) else (String.◌∷◌ c r.0, r.1)

abbrev nonempty : List String → List String
nonempty = keep (λ w. not (is_empty w))

-- s.split(): the pieces between blanks that are not empty
unfoldable pub split : String → List String
unfolding pieces
split s = let r = pieces is_space s in nonempty (r.0 ∷ r.1)

abbrev drop_last_empty : List String → List String
drop_last_empty [] = []
drop_last_empty (w ∷ []) = if is_empty w then [] else w ∷ []
drop_last_empty (w ∷ v ∷ ws) = w ∷ drop_last_empty (v ∷ ws)

-- s.splitlines(), for texts whose lines end in a line feed
unfoldable pub lines : String → List String
unfolding pieces
lines s = let r = pieces (λ c. eqb (code c) 10) s in drop_last_empty (r.0 ∷ r.1)

-- s.split(sep) for one separating character
unfoldable pub split_on : ℕ → String → List String
unfolding pieces
split_on sep s = let r = pieces (λ c. eqb (code c) sep) s in r.0 ∷ r.1

abbrev signed : (ℕ → ℤ) → Option ℕ → Option ℤ
signed f none = none
signed f (some n) = some (f n)

-- int(s) on a stripped text: an optional sign and digits; `none` where it raises ValueError
unfoldable pub int : String → Option ℤ
unfolding digits
int String.[] = none
int (String.◌∷◌ c s) =
    if eqb (code c) 45
    then signed (λ n. neg (pos n)) (digits s)
    else if eqb (code c) 43
    then signed pos (digits s)
    else signed pos (digits (String.◌∷◌ c s))

-- sep.join(words)
unfoldable pub join : String → List String → String
join sep [] = ""
join sep (w ∷ []) = w
join sep (w ∷ v ∷ ws) = w ++ (sep ++ join sep (v ∷ ws))

-- s.startswith(p)
abbrev pub begins_with : String → String → Bool
begins_with p s = starts_with s p

abbrev pub is_line_end : Char → Bool
is_line_end c =
    (leb 10 (code c) && leb (code c) 13)
    || (leb 28 (code c) && leb (code c) 30)
    || eqb (code c) 133
    || eqb (code c) 8232
    || eqb (code c) 8233

-- s.splitlines(), for a caller that skips empty lines: there is one more behind each "\r\n" and
-- behind a last line end.
unfoldable pub split_lines : String → List String
unfolding pieces
split_lines s = let r = pieces is_line_end s in r.0 ∷ r.1

drop_last : String → String
drop_last String.[] = ""
drop_last (String.◌∷◌ c String.[]) = ""
drop_last (String.◌∷◌ c (String.◌∷◌ d s)) = String.◌∷◌ c (drop_last (String.◌∷◌ d s))

-- s[1:-1]
unfoldable pub without_ends : String → String
unfolding drop_last
without_ends String.[] = ""
without_ends (String.◌∷◌ c s) = drop_last s

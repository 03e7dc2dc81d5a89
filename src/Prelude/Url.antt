-- ===== src/Prelude/Url.antt =====
-- Texts as addresses: percent encoding, suffixes, replacement and the three digits of a status.
use Prim.Native.Nat.{ℕ, zero, suc, ◌+◌, ◌/◌, ◌%◌}
use Prim.Native.Char.{Char, code}
use Prim.Native.String.{String, ◌++◌, char_at}
use mathlib.Core.Bool.{Bool, true, false, ◌&&◌, ◌||◌}
use mathlib.Core.Option.{Option, none}
use mathlib.Core.List.{List, [], ◌∷◌, ◌++◌ as ◌+++◌}
use text.Mathlib.Text.{◌==◌, starts_with}
use kui_local_multi_exit.Prelude.Tests.{ltb, leb, eqb, if◌then◌else◌}
use kui_local_multi_exit.Prelude.Text.{digits}

-- The bytes of a character in UTF-8.
abbrev utf8 : ℕ → List ℕ
utf8 n =
    if ltb n 128
    then n ∷ []
    else if ltb n 2048
    then (192 + n / 64) ∷ (128 + n % 64) ∷ []
    else if ltb n 65536
    then (224 + n / 4096) ∷ (128 + n / 64 % 64) ∷ (128 + n % 64) ∷ []
    else (240 + n / 262144) ∷ (128 + n / 4096 % 64) ∷ (128 + n / 64 % 64) ∷ (128 + n % 64) ∷ []

-- s.encode()
unfoldable pub encode : String → List ℕ
encode String.[] = []
encode (String.◌∷◌ c s) = utf8 (code c) +++ encode s

abbrev is_unreserved : ℕ → Bool
is_unreserved n =
    (leb 48 n && leb n 57)
    || (leb 65 n && leb n 90)
    || (leb 97 n && leb n 122)
    || eqb n 45
    || eqb n 46
    || eqb n 95
    || eqb n 126

abbrev hex : ℕ → Char
hex n = char_at "0123456789ABCDEF" n

quote_bytes : List ℕ → String → String
quote_bytes [] rest = rest
quote_bytes (b ∷ bs) rest =
    "%" ++ String.◌∷◌ (hex (b / 16)) (String.◌∷◌ (hex (b % 16)) (quote_bytes bs rest))

-- urllib.parse.quote(s, safe="")
unfoldable pub quote : String → String
unfolding quote_bytes
quote String.[] = ""
quote (String.◌∷◌ c s) =
    let rest = quote s in
    if is_unreserved (code c) then String.◌∷◌ c rest else quote_bytes (utf8 (code c)) rest

-- s.endswith(x)
unfoldable pub ends_with : String → String → Bool
ends_with x String.[] = x == ""
ends_with x (String.◌∷◌ c s) = String.◌∷◌ c s == x || ends_with x s

chars : String → ℕ
chars String.[] = 0
chars (String.◌∷◌ c s) = suc (chars s)

-- The text without its first `n` characters, with the occurrences of `x` in the rest replaced; `k` is
-- what a match has more than its first character.
replace_from : ℕ → String → ℕ → String → String → String
replace_from n x k y String.[] = ""
replace_from (suc n) x k y (String.◌∷◌ c s) = replace_from n x k y s
replace_from zero x k y (String.◌∷◌ c s) = elim (starts_with (String.◌∷◌ c s) x) [
  | true ↦ y ++ replace_from k x k y s
  | false ↦ String.◌∷◌ c (replace_from zero x k y s)
]

abbrev one_less : ℕ → ℕ
one_less zero = zero
one_less (suc n) = n

-- s.replace(x, y), for a text `x` that is not empty
unfoldable pub replace : String → String → String → String
unfolding replace_from chars
replace x y s = replace_from zero x (one_less (chars x)) y s

-- int(s) for a text of three digits
unfoldable pub http_status : String → Option ℕ
unfolding digits
http_status (String.◌∷◌ a (String.◌∷◌ b (String.◌∷◌ c String.[]))) =
    digits (String.◌∷◌ a (String.◌∷◌ b (String.◌∷◌ c String.[])))
http_status _ = none

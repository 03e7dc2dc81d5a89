-- ===== src/Prelude/Text/Lines.antt =====
-- Texts of one line: what str.splitlines, str.strip and str of a number give.
use Prim.Native.Nat.{ℕ, zero, suc, ◌/◌, ◌%◌, ◌<◌}
use Prim.Native.Char.{Char, code}
use Prim.Native.String.{String, ◌++◌, char_at}
use mathlib.Core.Path.{◌≡◌, refl, sym, subst}
use mathlib.Core.Bool.{Bool, true, false, not, ◌&&◌}
use mathlib.Core.List.{List, [], ◌∷◌}
use text.Mathlib.Text.{◌==◌}
use text.Mathlib.TextEquality.{eq_iff}
use text.Mathlib.TextLemmas.{cons-append, nil-append}
use mathlib.Core.Logic.{inl, inr}
use native.Mathlib.Omega.{arith}
use kui_local_multi_exit.Prelude.Lists.{All, any}
use kui_local_multi_exit.Prelude.Tests.{Bool-cases, eqb, ltb}
use kui_local_multi_exit.Prelude.Text.{
  is_line_end, is_space, is_empty, pieces, split_lines, split_on, strip, lstrip, rstrip, decimal,
  decimal_fuel,
}

-- No character of the text ends a line.
unfoldable pub is_one_line : String → Bool
is_one_line String.[] = true
is_one_line (String.◌∷◌ c s) = not (is_line_end c) && is_one_line s

abbrev pub OneLine : String → Type 0
OneLine s = is_one_line s ≡ true

pub append-OneLine : (s t : String) → OneLine s → OneLine t → OneLine (s ++ t)
unfolding is_one_line
append-OneLine String.[] t h k = rw (nil-append t) k
append-OneLine (String.◌∷◌ c s) t h k =
    let rest = append-OneLine s t in rw (cons-append c s t) (ground (arith))

pieces-OneLine : (s : String) → All OneLine ((pieces is_line_end s).0 ∷ (pieces is_line_end s).1)
unfolding pieces is_one_line
pieces-OneLine String.[] = (refl, tt)
pieces-OneLine (String.◌∷◌ c s) =
    let rest = pieces-OneLine s in
    elim (Bool-cases (is_line_end c)) [
      | inl e ↦ rw e (refl, rest)
      | inr e ↦ rw e (rw e rest.0, rest.1)
    ]

pub split_lines-OneLine : (s : String) → All OneLine (split_lines s)
unfolding split_lines
split_lines-OneLine s = pieces-OneLine s

lstrip-OneLine : (s : String) → OneLine s → OneLine (lstrip s)
unfolding lstrip is_one_line
lstrip-OneLine String.[] h = h
lstrip-OneLine (String.◌∷◌ c s) h = ground (arith, lstrip-OneLine s)

rstrip-OneLine : (s : String) → OneLine s → OneLine (rstrip s)
unfolding rstrip is_one_line
rstrip-OneLine String.[] h = h
rstrip-OneLine (String.◌∷◌ c s) h =
    let rest = rstrip-OneLine s in
    elim (Bool-cases (is_space c && is_empty (rstrip s))) [
      | inl e ↦ rw e refl
      | inr e ↦ rw e (ground arith)
    ]

pub strip-OneLine : (s : String) → OneLine s → OneLine (strip s)
unfolding strip
strip-OneLine s h = rstrip-OneLine (lstrip s) (lstrip-OneLine s h)

digit_stays : (k : ℕ) → k < 10 → is_line_end (char_at "0123456789" k) ≡ false
digit_stays zero h = refl
digit_stays (suc zero) h = refl
digit_stays (suc (suc zero)) h = refl
digit_stays (suc (suc (suc zero))) h = refl
digit_stays (suc (suc (suc (suc zero)))) h = refl
digit_stays (suc (suc (suc (suc (suc zero))))) h = refl
digit_stays (suc (suc (suc (suc (suc (suc zero)))))) h = refl
digit_stays (suc (suc (suc (suc (suc (suc (suc zero))))))) h = refl
digit_stays (suc (suc (suc (suc (suc (suc (suc (suc zero)))))))) h = refl
digit_stays (suc (suc (suc (suc (suc (suc (suc (suc (suc zero))))))))) h = refl
digit_stays (suc (suc (suc (suc (suc (suc (suc (suc (suc (suc k)))))))))) h = absurd (omega arith)

decimal_fuel-OneLine : (f n : ℕ) (acc : String) → OneLine acc → OneLine (decimal_fuel f n acc)
unfolding decimal_fuel is_one_line
decimal_fuel-OneLine zero n acc h = h
decimal_fuel-OneLine (suc f) n acc h =
    let next = String.◌∷◌ (char_at "0123456789" (n % 10)) acc in
    let one : OneLine next = rw (digit_stays (n % 10) (omega arith)) h in
    elim (Bool-cases (ltb n 10)) [
      | inl e ↦ rw e one
      | inr e ↦ rw e (decimal_fuel-OneLine f (n / 10) next one)
    ]

pub decimal-OneLine : (n : ℕ) → OneLine (decimal n)
unfolding decimal is_one_line
decimal-OneLine n = decimal_fuel-OneLine (suc n) n "" refl

pub and_parts : (a b : Bool) → (a && b) ≡ true → (a ≡ true) × (b ≡ true)
and_parts true b h = (refl, h)
and_parts false b h = absurd (cc)

dot_stays : (c : Char) → eqb (code c) 46 ≡ true → is_line_end c ≡ false
dot_stays c e = ground arith

split-OneLine :
    (s : String)
    → let r = pieces (λ c. eqb (code c) 46) s in OneLine r.0 → All OneLine r.1 → OneLine s
unfolding pieces is_one_line
split-OneLine String.[] h k = refl
split-OneLine (String.◌∷◌ c s) h k = elim (Bool-cases (eqb (code c) 46)) [
  | inl e ↦ let l = rw e at k in rw (dot_stays c e) (split-OneLine s l.0 l.1)
  | inr e ↦
      let l = rw e at h in
      let t = rw e at k in
      let parts = and_parts (not (is_line_end c)) _ l in rw (parts.0) (split-OneLine s parts.1 t)
]

-- A text whose pieces between full stops are of one line.
pub split_on-OneLine : (s : String) → All OneLine (split_on 46 s) → OneLine s
unfolding split_on
split_on-OneLine s h = split-OneLine s h.0 h.1

-- A text that is one of some texts of one line.
pub elem-OneLine :
    (s : String) (ts : List String) → any (s ==◌) ts ≡ true → All OneLine ts → OneLine s
elem-OneLine s [] e h = absurd (cc)
elem-OneLine s (t ∷ ts) e h = elim (Bool-cases (s == t)) [
  | inl f ↦ subst OneLine (sym ((eq_iff s t).0 f)) h.0
  | inr f ↦ elem-OneLine s ts (ground arith) h.1
]

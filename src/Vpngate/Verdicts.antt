-- ===== src/Vpngate/Verdicts.antt =====
-- The verdicts of `probe_targets` in vps/vpngate.py.
use kui_local_multi_exit.Prelude.{
  ℕ, ◌≡◌, refl, ap, String, Bool, true, false, not, ◌&&◌, ◌||◌, Option, none, some, ◌==◌, eq_iff,
  arith, ltb, leb, eqb, if◌then◌else◌, Option-cases, ◌⊎◌,
}
use kui_local_multi_exit.Prelude.Text.{strip, digits, digits_from}
use kui_local_multi_exit.Prelude.Url.{http_status}
use kui_local_multi_exit.Prelude.Int.{ℤ, pos, eqz}
use kui_local_multi_exit.Outside.{RunResult}
use kui_local_multi_exit.Vpngate.{probe_accepts, probe_classification, attempt_of, status_accepted}

status_204 : http_status "204" ≡ some 204
unfolding http_status digits digits_from
status_204 = refl

-- The word for a status, once the request itself has succeeded.
abbrev word : ℕ → Bool → String
word n accepted =
    if leb 300 n && ltb n 400
    then "redirect"
    else if eqb n 407
    then "proxy_auth_required"
    else if leb 500 n
    then "server_error"
    else if accepted
    then "explicit_response"
    else "unexpected_status"

accepted_word :
    (n : ℕ) (a : Bool)
    → (a ≡ true → (n ≡ 204) ⊎ (status_accepted n ≡ true))
    → a ≡ (word n a == "explicit_response")
accepted_word n false h = go (leb 300 n && ltb n 400) (eqb n 407) (leb 500 n)
  where
    go :
        (x y z : Bool)
        → false ≡ (
            (if x
              then "redirect"
              else if y
              then "proxy_auth_required"
              else if z
              then "server_error"
              else "unexpected_status")
            == "explicit_response")
    go true y z = refl
    go false true z = refl
    go false false true = refl
    go false false false = refl
accepted_word n true h =
    go (leb 300 n && ltb n 400) (eqb n 407) (leb 500 n) (ground (arith, h refl))
      (ground (arith, h refl)) (ground (arith, h refl))
  where
    go :
        (x y z : Bool)
        → x ≡ false
        → y ≡ false
        → z ≡ false
        → true ≡ (
            (if x
              then "redirect"
              else if y
              then "proxy_auth_required"
              else if z
              then "server_error"
              else "explicit_response")
            == "explicit_response")
    go x y z p q r = rw (p, q, r) refl

accepted_status :
    (url c : String) (n : ℕ)
    → http_status c ≡ some n
    → probe_accepts url c ≡ true
    → (n ≡ 204) ⊎ (status_accepted n ≡ true)
unfolding probe_accepts
accepted_status url c n e h = ground (arith, status_204, eq_iff c "204", ap http_status)

accepted_not_000 : (url c : String) → (c == "000") ≡ true → probe_accepts url c ≡ false
unfolding probe_accepts
accepted_not_000 url c h = ground (arith, Option-cases (http_status c))

accepted_not_none : (url c : String) → http_status c ≡ none → probe_accepts url c ≡ false
unfolding probe_accepts
accepted_not_none url c h = rw (h, probe_accepts) refl

verdicts_agree :
    (url c : String) (z : ℤ)
    → (eqz z (pos 0) && probe_accepts url c) ≡ (probe_classification url c z == "explicit_response")
unfolding probe_classification
verdicts_agree url c z =
    go (eqz z (pos 0)) (eqz z (pos 28)) (c == "000") (http_status c) (probe_accepts url c)
      (accepted_not_000 url c) (accepted_not_none url c) (λ n. accepted_status url c n)
  where
    go :
        (a b d : Bool) (o : Option ℕ) (p : Bool)
        → (d ≡ true → p ≡ false)
        → (o ≡ none → p ≡ false)
        → ((n : ℕ) → o ≡ some n → p ≡ true → (n ≡ 204) ⊎ (status_accepted n ≡ true))
        → (a && p) ≡ (
            (if not a || d
              then if b || d then "timeout" else "transport_error"
              else elim o [ none ↦ "invalid_response" | some n ↦ word n p ])
            == "explicit_response")
    go false true d o p x y s = refl
    go false false true o p x y s = refl
    go false false false o p x y s = refl
    go true true true o p x y s = x refl
    go true false true o p x y s = x refl
    go true b false none p x y s = y refl
    go true b false (some n) p x y s = accepted_word n p (s n refl)

-- A probe is accepted if and only if it is classified as an explicit response.
pub accepted_iff_explicit :
    (url : String) (r : RunResult) (elapsed : ℕ)
    → (attempt_of url r elapsed).accepted
      ≡ ((attempt_of url r elapsed).classification == "explicit_response")
unfolding attempt_of
accepted_iff_explicit url r elapsed = verdicts_agree url (strip r.stdout) r.returncode

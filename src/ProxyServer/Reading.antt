-- ===== src/ProxyServer/Reading.antt =====
-- What recv_exact of vps/proxy_server.py reads does not depend on how the stream is cut.
use mathlib.Core.List.{append_assoc, append-nil}
use kui_local_multi_exit.Prelude.{
  ℕ, zero, suc, ◌+◌, ◌-◌, ◌≤◌, ◌<◌, List, [], ◌∷◌, ◌++◌, ◌≡◌, refl, sym, ap, ◌∙◌, arith, length,
  take, drop, leb, ltb, take-drop, length-take, length-drop, length-append, take_past, drop_past,
  subst, Bool-cases, inl, inr, true, false, leb_false→lt, leb→le,
}
use kui_local_multi_exit.Prelude.Exec.{Outcome, returned, raised, os_error}
use kui_local_multi_exit.ProxyServer.{Bytes}
use kui_local_multi_exit.ProxyServer.Stream.{recv, recv_loop, recv_exact, received}

received-cons : (x : Bytes) (cs : List Bytes) → 0 < length x → received (x ∷ cs) ≡ x ++ received cs
unfolding received
received-cons [] cs h = absurd (omega arith)
received-cons (b ∷ bs) cs h = refl

-- One call of `recv` takes something off the stream, unless the peer has closed.
abbrev IsCut : ℕ → List Bytes → Bytes × List Bytes → Type 0
IsCut n cs r =
    (received cs ≡ r.0 ++ received r.1) × (length r.0 ≤ n) × (length r.0 ≡ 0 → received cs ≡ [])

IsCut-piece :
    (n b : ℕ) (bs : Bytes) (cs : List Bytes)
    → 0 < n
    → n < length (b ∷ bs)
    → IsCut n ((b ∷ bs) ∷ cs) (take n (b ∷ bs), drop n (b ∷ bs) ∷ cs)
IsCut-piece n b bs cs h l =
    let left = length-take n (b ∷ bs) (omega arith) in
    let right = length-drop n (b ∷ bs) in
    (
      received-cons (b ∷ bs) cs (omega arith)
          ∙ ap (λ x. x ++ received cs) (take-drop n (b ∷ bs))
          ∙ append_assoc (take n (b ∷ bs)) (drop n (b ∷ bs)) (received cs)
          ∙ ap (λ x. take n (b ∷ bs) ++ x) (sym (received-cons (drop n (b ∷ bs)) cs (omega arith))),
      omega arith,
      λ e. absurd (omega arith),
    )

recv-IsCut : (n : ℕ) (cs : List Bytes) → 0 < n → IsCut n cs (recv n cs)
unfolding recv received
recv-IsCut n [] h = (refl, omega arith, λ e. refl)
recv-IsCut n ([] ∷ cs) h = (refl, omega arith, λ e. refl)
recv-IsCut n ((b ∷ bs) ∷ cs) h = elim (Bool-cases (leb (length (b ∷ bs)) n)) [
  | inl e ↦ rw e (refl, leb→le (length (b ∷ bs)) n e, λ z. absurd (omega arith))
  | inr e ↦ rw e (IsCut-piece n b bs cs h (leb_false→lt (length (b ∷ bs)) n e))
]

-- The next `k` bytes behind `got`, or the exception where there are fewer.
abbrev IsRead : Bytes → ℕ → List Bytes → Outcome Bytes × List Bytes → Type 0
IsRead got k cs r =
    (k ≤ length (received cs)
      → (r.0 ≡ returned (got ++ take k (received cs))) × (received r.1 ≡ drop k (received cs)))
    × (length (received cs) < k → r.0 ≡ raised (os_error "Unexpected disconnect."))

IsRead-past :
    (got x : Bytes) (k : ℕ) (cs cs' : List Bytes) (r : Outcome Bytes × List Bytes)
    → received cs ≡ x ++ received cs'
    → IsRead (got ++ x) k cs' r
    → IsRead got (length x + k) cs r
IsRead-past got x k cs cs' r e h =
    let l = length-append x (received cs') in
    rw e (
      λ p. (
        (h.0 (omega arith)).0
            ∙ ap returned (
                append_assoc got x (take k (received cs'))
                ∙ ap (λ y. got ++ y) (sym (take_past x (received cs') k))),
        (h.0 (omega arith)).1 ∙ sym (drop_past x (received cs') k),
      ),
      λ p. h.1 (omega arith),
    )

piece-IsRead :
    (got : Bytes) (k : ℕ) (cs : List Bytes) (r : Bytes × List Bytes)
    (rest : Outcome Bytes × List Bytes)
    → IsCut (suc k) cs r
    → (0 < length r.0 → IsRead (got ++ r.0) (suc k - length r.0) r.1 rest)
    → IsRead got
        (suc k)
        cs
        (elim r.0 [ [] ↦ (raised (os_error "Unexpected disconnect."), r.1) | b ∷ bs ↦ rest ])
piece-IsRead got k cs ([], cs') rest h ih =
    let none_left = h.2 (omega arith) in rw none_left (λ p. absurd (omega arith), λ p. refl)
piece-IsRead got k cs (b ∷ bs, cs') rest h ih =
    let some_left : length (b ∷ bs) + (suc k - length (b ∷ bs)) ≡ suc k = omega arith in
    subst (λ n. IsRead got n cs rest) some_left
      (IsRead-past got (b ∷ bs) (suc k - length (b ∷ bs)) cs cs' rest h.0 (ih (omega arith)))

lt→ltb : (a b : ℕ) → a < b → ltb a b ≡ true
lt→ltb a b h = ground arith

le→ltb_false : (a b : ℕ) → b ≤ a → ltb a b ≡ false
le→ltb_false a b h = ground arith

recv_loop-IsRead :
    (fuel size k : ℕ) (got : Bytes) (cs : List Bytes)
    → length got + k ≡ size
    → k ≤ fuel
    → IsRead got k cs (recv_loop fuel size got cs)
unfolding recv_loop
recv_loop-IsRead zero size zero got cs e l =
    rw (append-nil got, le→ltb_false (length got) size (omega arith))
      (λ p. (refl, refl), λ p. absurd (omega arith))
recv_loop-IsRead zero size (suc k) got cs e l = absurd (omega arith)
recv_loop-IsRead (suc fuel) size zero got cs e l =
    rw (append-nil got, le→ltb_false (length got) size (omega arith))
      (λ p. (refl, refl), λ p. absurd (omega arith))
recv_loop-IsRead (suc fuel) size (suc k) got cs e l =
    let asked : size - length got ≡ suc k = omega arith in
    let r = recv (size - length got) cs in
    let cut : IsCut (suc k) cs r =
      subst (λ n. IsCut n cs r) asked (recv-IsCut (size - length got) cs (omega arith)) in
    rw (lt→ltb (length got) size (omega arith)) (
      piece-IsRead got k cs r (recv_loop fuel size (got ++ r.0) r.1) cut (λ p.
        let ends : length (got ++ r.0) + (suc k - length r.0) ≡ size =
          omega (arith, length-append got r.0, cut.1) in
        recv_loop-IsRead fuel size (suc k - length r.0) (got ++ r.0) r.1 ends (omega arith)))

-- However the stream is cut into pieces, recv_exact returns its next `n` bytes and leaves the
-- others, or raises where there are fewer: the loop asks `recv` often enough.
pub recv_exact_lem :
    (n : ℕ) (cs : List Bytes)
    → (n ≤ length (received cs)
        → ((recv_exact n cs).0 ≡ returned (take n (received cs)))
          × (received (recv_exact n cs).1 ≡ drop n (received cs)))
      × (length (received cs) < n
          → (recv_exact n cs).0 ≡ raised (os_error "Unexpected disconnect."))
unfolding recv_exact
recv_exact_lem n cs = recv_loop-IsRead n n n [] cs (omega arith) (omega arith)

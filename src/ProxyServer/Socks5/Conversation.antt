-- ===== src/ProxyServer/Socks5/Conversation.antt =====
-- _socks5_client of vps/proxy_server.py: where a conversation stands, and what one read or one answer
-- makes of it.
use kui_local_multi_exit.Prelude.{
  ℕ, ◌≤◌, ◌<◌, true, List, [], ◌∷◌, ◌++◌, ◌≡◌, refl, ap, ◌∙◌, arith, length, take, drop, take-drop,
  length-take, take-front, length-append, drop-front, Bool-cases, inl, inr, leb, leb→le,
  leb_false→lt,
}
use kui_local_multi_exit.Prelude.Exec.{Outcome, returned, raised, os_error, Meets, Meets-bind}
use kui_local_multi_exit.ProxyServer.{Bytes, Act, Session, Network, sendall}
use kui_local_multi_exit.ProxyServer.Stream.{recv_exact, received}
use kui_local_multi_exit.ProxyServer.Reading.{recv_exact_lem}
use kui_local_multi_exit.ProxyServer.Socks5.{read, read_byte, byte_at}

-- The client still sends `left`, it was sent `answers`, and `acts` were done for it.
abbrev pub At : Bytes → Bytes → List Act → Session → Type 0
At left answers acts s = (received s.incoming ≡ left) × (s.sent ≡ answers) × (s.acts ≡ acts)

abbrev pub Never : Session → Type 0
Never s = ⊥

result_there :
    (x left answers : Bytes) (acts : List Act) (s : Session) (r : Outcome Bytes × List Bytes)
    → r.0 ≡ returned x
    → received r.1 ≡ left
    → (s.sent ≡ answers) × (s.acts ≡ acts)
    → Meets (λ y t. (y ≡ x) × At left answers acts t) Never (r.0, record s { incoming = r.1 })
result_there x left answers acts s (returned y, cs) e l h = (cc, (l, h.0, h.1))
result_there x left answers acts s (raised f, cs) e l h = absurd (cc)

-- Bytes that are there are read.
pub read_there :
    (x left answers : Bytes) (acts : List Act) (n : ℕ) (s : Session)
    → length x ≡ n
    → At (x ++ left) answers acts s
    → Meets (λ y t. (y ≡ x) × At left answers acts t) Never (read n s)
read_there x left answers acts n s l h =
    let enough : n ≤ length (received s.incoming) = rw h.0 (omega (arith, length-append x left)) in
    let r = (recv_exact_lem n s.incoming).0 enough in
    result_there x left answers acts s (recv_exact n s.incoming)
      (r.0 ∙ ap (λ ys. returned (take n ys)) h.0 ∙ ap returned (take-front x left n l))
      (r.1 ∙ ap (drop n) h.0 ∙ drop-front x left n l) (h.1, h.2)

result_back :
    (n : ℕ) (acts : List Act) (s : Session) (r : Outcome Bytes × List Bytes)
    → s.acts ≡ acts
    → (n ≤ length (received s.incoming)
        → (r.0 ≡ returned (take n (received s.incoming)))
          × (received r.1 ≡ drop n (received s.incoming)))
      × (length (received s.incoming) < n → r.0 ≡ raised (os_error "Unexpected disconnect."))
    → Meets
        (λ y t. (t.acts ≡ acts) × (length y ≡ n) × (received s.incoming ≡ y ++ received t.incoming))
        (λ t. t.acts ≡ acts)
        (r.0, record s { incoming = r.1 })
result_back n acts s (raised f, cs) h k = h
result_back n acts s (returned y, cs) h k =
    elim (Bool-cases (leb n (length (received s.incoming)))) [
      | inl e ↦
          let enough = leb→le n (length (received s.incoming)) e in
          let got = k.0 enough in
          let read : y ≡ take n (received s.incoming) = cc in
          (
            h,
            ap length read ∙ length-take n (received s.incoming) enough,
            rw (read, got.1) (take-drop n (received s.incoming)),
          )
      | inr e ↦ let none = k.1 (leb_false→lt n (length (received s.incoming)) e) in absurd (cc)
    ]

-- What a read has returned was there.
pub read_back :
    (n : ℕ) (acts : List Act) (s : Session)
    → s.acts ≡ acts
    → Meets
        (λ y t. (t.acts ≡ acts) × (length y ≡ n) × (received s.incoming ≡ y ++ received t.incoming))
        (λ t. t.acts ≡ acts)
        (read n s)
read_back n acts s h =
    result_back n acts s (recv_exact n s.incoming) h (recv_exact_lem n s.incoming)

-- A client that takes the answer gets it.
pub sendall_there :
    (net : Network) (b left answers : Bytes) (acts : List Act) (s : Session)
    → net.takes answers b ≡ true
    → At left answers acts s
    → Meets (λ u t. At left (answers ++ b) acts t) Never (sendall net b s)
sendall_there net b left answers acts s h at = rw (at.1, h) (at.0, refl, at.2)

pub sendall_back :
    (net : Network) (b : Bytes) (acts : List Act) (s : Session)
    → s.acts ≡ acts
    → Meets
        (λ u t. (t.acts ≡ acts) × (t.incoming ≡ s.incoming))
        (λ t. t.acts ≡ acts)
        (sendall net b s)
sendall_back net b acts s h = elim (Bool-cases (net.takes s.sent b)) [
  | inl e ↦ rw e (h, refl)
  | inr e ↦ rw e h
]

pub byte_there :
    (b : ℕ) (left answers : Bytes) (acts : List Act) (s : Session)
    → At (b ∷ left) answers acts s
    → Meets (λ y t. (y ≡ b) × At left answers acts t) Never (read_byte s)
byte_there b left answers acts s h =
    Meets-bind (read 1) s _ _ _ _ (read_there (b ∷ []) left answers acts 1 s refl h)
      (λ y t q. (ap (byte_at 0) q.0, q.1))

first_of : (y rest all : Bytes) → length y ≡ 1 → all ≡ y ++ rest → all ≡ byte_at 0 y ∷ rest
first_of [] rest all l e = absurd (omega arith)
first_of (b ∷ []) rest all l e = e
first_of (b ∷ c ∷ bs) rest all l e = absurd (omega arith)

pub byte_back :
    (acts : List Act) (s : Session)
    → s.acts ≡ acts
    → Meets
        (λ y t. (t.acts ≡ acts) × (received s.incoming ≡ y ∷ received t.incoming))
        (λ t. t.acts ≡ acts)
        (read_byte s)
byte_back acts s h =
    Meets-bind (read 1) s _ _ _ _ (read_back 1 acts s h)
      (λ y t q. (q.0, first_of y (received t.incoming) (received s.incoming) q.1 q.2))

-- ===== src/ProxyServer/Connections/Balance.antt =====
-- The connection slots of vps/proxy_server.py: none is lost and none is given twice.
use kui_local_multi_exit.Prelude.{
  ℕ, suc, ◌+◌, ◌-◌, ◌<◌, Bool, true, false, not, List, [], ◌∷◌, subst, ◌∙◌, keep, All, eqb, ltb, In,
  inl, inr, ◌≡◌, refl, arith, length, Bool-cases,
}
use kui_local_multi_exit.Prelude.Int.{ℤ, pos, negsuc}
use kui_local_multi_exit.Prelude.Exec.{Outcome, returned}
use kui_local_multi_exit.ProxyServer.Connections.{
  Connection, Slots, is_same, configure_connection_limit, discard, without, release, accept, finish,
  stop, Step, accepts, finishes, stops, Reach, here, next,
}

-- The free slots and the connections that are served make up the limit.
abbrev pub IsBalanced : Slots → Type 0
IsBalanced s = s.free + length s.served ≡ s.limit

is_same_refl : (c d : Connection) → c ≡ d → is_same c d ≡ true
is_same_refl c d e = rw (← e) (ground arith)

pub length-without :
    (c : Connection) (ds : List Connection) → In c ds → suc (length (without c ds)) ≡ length ds
unfolding without
length-without c [] m = absurd m
length-without c (d ∷ ds) m = ground (arith, is_same_refl c d, length-without c ds)

-- Every socket that a listener would close is served.
abbrev pub IsCovered : List Connection → List Connection → Type 0
IsCovered served clients = All (λ c. In c served) clients

In-without :
    (c d : Connection) (ds : List Connection) → is_same c d ≡ false → In d ds → In d (without c ds)
unfolding without
In-without c d [] e m = absurd m
In-without c d (x ∷ ds) e (inl p) = ground (arith, p)
In-without c d (x ∷ ds) e (inr m) = ground (arith, In-without c d ds e m)

pub discard-IsCovered :
    (c : Connection) (served clients : List Connection)
    → IsCovered served clients
    → IsCovered (without c served) (discard c clients)
unfolding discard
discard-IsCovered c served [] h = tt
discard-IsCovered c served (d ∷ clients) h = elim (Bool-cases (is_same c d)) [
  | inl e ↦ rw e (discard-IsCovered c served clients h.1)
  | inr e ↦ rw e (In-without c d served e h.0, discard-IsCovered c served clients h.1)
]

cons-IsCovered :
    (c : Connection) (served clients : List Connection)
    → IsCovered served clients
    → IsCovered (c ∷ served) clients
cons-IsCovered c served [] h = tt
cons-IsCovered c served (d ∷ clients) h = (inr h.0, cons-IsCovered c served clients h.1)

keep-IsCovered :
    (p : Connection → Bool) (served clients : List Connection)
    → IsCovered served clients
    → IsCovered served (keep p clients)
keep-IsCovered p served [] h = tt
keep-IsCovered p served (d ∷ clients) h = ground (arith, keep-IsCovered p served clients)

-- The state behind a step, which does not raise.
abbrev pub Lands : Slots → Outcome Slots → Type 0
Lands s o =
    (t : Slots) × (o ≡ returned t)
    × IsBalanced t
    × IsCovered t.served t.clients
    × (t.limit ≡ s.limit)

abbrev pub IsSound : Slots → Type 0
IsSound s = IsBalanced s × IsCovered s.served s.clients

discard-new : (c : Connection) (cs : List Connection) → discard c (c ∷ cs) ≡ discard c cs
unfolding discard
discard-new c cs = rw (is_same_refl c c refl) refl

-- No slot is free, and the connection is closed.
pub turned_away :
    (starts : Bool) (c : Connection) (s : Slots) → s.free ≡ 0 → accept starts c s ≡ returned s
unfolding accept
turned_away starts c s e = rw e refl

taken : (c : Connection) (s : Slots) → 0 < s.free → IsSound s → Lands s (accept true c s)
unfolding accept
taken c s f h =
    let some_free : eqb s.free 0 ≡ false = ground arith in
    rw some_free (_, refl, omega arith, (inl refl, cons-IsCovered c s.served s.clients h.1), refl)

given_back : (c : Connection) (s : Slots) → 0 < s.free → IsSound s → Lands s (accept false c s)
unfolding accept release discard
given_back c s f h =
    let some_free : eqb s.free 0 ≡ false = ground arith in
    let room : ltb (s.free - 1) s.limit ≡ true = ground arith in
    rw (some_free, room, discard-new c s.clients)
      (_, refl, omega arith, keep-IsCovered (λ d. not (is_same c d)) s.served s.clients h.1, refl)

accept-Lands :
    (starts : Bool) (c : Connection) (s : Slots) → IsSound s → Lands s (accept starts c s)
accept-Lands starts c s h = elim (Bool-cases (eqb s.free 0)) [
  | inl e ↦ (s, turned_away starts c s (ground arith), h.0, h.1, refl)
  | inr e ↦
      let some_free : 0 < s.free = ground arith in
      elim starts as (λ b. Lands s (accept b c s)) [
        | true ↦ taken c s some_free h
        | false ↦ given_back c s some_free h
      ]
]

pub finish-Lands : (c : Connection) (s : Slots) → In c s.served → IsSound s → Lands s (finish c s)
unfolding finish release
finish-Lands c s m h =
    let l = length-without c s.served m in
    let room : ltb s.free s.limit ≡ true = ground arith in
    rw room (_, refl, omega arith, discard-IsCovered c s.served s.clients h.1, refl)

Lands-at :
    (s t : Slots) (o : Outcome Slots) → Lands s o → o ≡ returned t → IsSound t × (t.limit ≡ s.limit)
Lands-at s t o l e =
    let same : l.0 ≡ t = cc in subst (λ u. IsSound u × (u.limit ≡ s.limit)) same ((l.2, l.3), l.4)

stop-IsSound : (l : ℕ) (s : Slots) → IsSound s → IsSound (stop l s) × ((stop l s).limit ≡ s.limit)
unfolding stop
stop-IsSound l s h = ((h.0, keep-IsCovered _ s.served s.clients h.1), refl)

Step-IsSound : {s t : Slots} → Step s t → IsSound s → IsSound t × (t.limit ≡ s.limit)
Step-IsSound {s} {t} (accepts starts c e) h = Lands-at s t _ (accept-Lands starts c s h) e
Step-IsSound {s} {t} (finishes c m e) h = Lands-at s t _ (finish-Lands c s m h) e
Step-IsSound {s} (stops l) h = stop-IsSound l s h

pub Reach-IsSound : {s t : Slots} → Reach s t → IsSound s → IsSound t × (t.limit ≡ s.limit)
Reach-IsSound here h = (h, refl)
Reach-IsSound (next r e) h =
    let before = Reach-IsSound r h in let now = Step-IsSound e before.0 in (now.0, now.1 ∙ before.1)

abbrev pub IsFresh : Slots → Type 0
IsFresh s = (s.served ≡ []) × (s.clients ≡ [])

configured :
    (n : ℤ) (s t : Slots)
    → IsFresh s
    → configure_connection_limit n s ≡ returned t
    → IsSound t × (pos t.limit ≡ n) × (0 < t.limit)
unfolding configure_connection_limit
configured (negsuc n) s t f e = absurd (cc)
configured (pos n) s t f e = elim (Bool-cases (ltb n 1)) [
  | inl b ↦ let never = rw b at e in absurd (cc)
  | inr b ↦
      let set = rw b at e in
      let same : record s { limit = n; free = n } ≡ t = cc in
      subst (λ u. IsSound u × (pos u.limit ≡ pos n) × (0 < u.limit)) same
        (rw (f.0, f.1) (omega arith, tt), refl, ground arith)
]

-- Whatever connections come in, end, fail to get a thread or are cut off by the stop of a listener,
-- in whatever order, from a limit on that has been configured while none was served: the free slots
-- and the connections that are served make up that limit, which is positive, and a listener has no
-- socket in its set that is not served.
pub reachable_slots-IsSound :
    (n : ℤ) (s t u : Slots)
    → IsFresh s
    → configure_connection_limit n s ≡ returned t
    → Reach t u
    → IsSound u × (pos u.limit ≡ n) × (0 < u.limit)
reachable_slots-IsSound n s t u f e r =
    let start = configured n s t f e in
    let end = Reach-IsSound r start.0 in (end.0, rw end.1 start.1, rw end.1 start.2)

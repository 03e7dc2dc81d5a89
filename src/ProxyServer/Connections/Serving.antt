-- ===== src/ProxyServer/Connections/Serving.antt =====
-- The connection slots of vps/proxy_server.py: a connection is served as long as one is free.
use kui_local_multi_exit.Prelude.{
  suc, ◌-◌, ◌<◌, Bool, true, false, ◌∷◌, eqb, ltb, In, ◌≡◌, refl, arith, length,
}
use kui_local_multi_exit.Prelude.Int.{ℤ}
use kui_local_multi_exit.Prelude.Exec.{returned}
use kui_local_multi_exit.ProxyServer.Connections.{
  Connection, Slots, configure_connection_limit, discard, without, release, accept, finish, Reach,
}
use kui_local_multi_exit.ProxyServer.Connections.Balance.{
  IsBalanced, IsFresh, reachable_slots-IsSound, length-without, turned_away,
}

taken_slot :
    (c : Connection) (s : Slots)
    → 0 < s.free
    → accept true c s
      ≡ returned (record s { free = s.free - 1; clients = c ∷ s.clients; served = c ∷ s.served })
unfolding accept
taken_slot c s f = let some_free : eqb s.free 0 ≡ false = ground arith in rw some_free refl

released_slot :
    (c : Connection) (s : Slots)
    → s.free < s.limit
    → finish c s
      ≡ returned (record s {
        free = suc s.free;
        clients = discard c s.clients;
        served = without c s.served;
      })
unfolding finish release
released_slot c s f = let room : ltb s.free s.limit ≡ true = ground arith in rw room refl

-- What `accept` and `finish` do in a state that is reached.
abbrev pub IsServing : Slots → Type 0
IsServing u =
    ((c : Connection) (starts : Bool) → length u.served ≡ u.limit → accept starts c u ≡ returned u)
    × ((c : Connection)
        → length u.served < u.limit
        → (v : Slots) × (accept true c u ≡ returned v) × (v.served ≡ c ∷ u.served))
    × ((c d : Connection)
        → In c u.served
        → (v w : Slots) × (finish c u ≡ returned v)
          × (accept true d v ≡ returned w)
          × (w.served ≡ d ∷ without c u.served))

balanced-IsServing : (u : Slots) → IsBalanced u → IsServing u
balanced-IsServing u b = (
  λ c starts full. turned_away starts c u (omega arith),
  λ c some. (_, taken_slot c u (omega arith), refl),
  λ c d m.
      let l = length-without c u.served m in
      (_, _, released_slot c u (omega arith), taken_slot d _ (omega arith), refl),
)

-- From a limit on that has been configured while no connection was served, and in whatever state is
-- reached: a connection is turned away without a trace when as many are served as the limit says, and
-- served when there are fewer; a thread that ends releases its slot without an exception, and the
-- connection that comes next is served.
pub reachable_slots-IsServing :
    (n : ℤ) (s t u : Slots)
    → IsFresh s
    → configure_connection_limit n s ≡ returned t
    → Reach t u
    → IsServing u
reachable_slots-IsServing n s t u f e r =
    balanced-IsServing u (reachable_slots-IsSound n s t u f e r).0.0

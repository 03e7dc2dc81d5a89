-- ===== src/ProxyServer/Connections.antt =====
-- vps/proxy_server.py: the slots that all listeners share (configure_connection_limit, the acceptance
-- in ProxyListener.serve_forever, the end of _proxy_client, ProxyListener.stop).
pub mod Balance
pub mod Serving
use kui_local_multi_exit.Prelude.{
  ℕ, zero, suc, ◌+◌, ◌-◌, Bool, true, false, not, ◌&&◌, List, [], ◌∷◌, keep, eqb, ltb, In,
  if◌then◌else◌, ◌≡◌,
}
use kui_local_multi_exit.Prelude.Int.{ℤ, pos, negsuc}
use kui_local_multi_exit.Prelude.Exec.{Outcome, returned, raised, value_error}

-- A client's socket, and the listener that accepted it.
pub record Connection : Type 0 where
  pub listener : ℕ
  pub client : ℕ

abbrev pub is_same : Connection → Connection → Bool
is_same c d = eqb c.listener d.listener && eqb c.client d.client

-- CONNECTION_SLOTS with its limit, the `_clients` of the listeners, and the connections that a thread
-- is at work for.
pub record Slots : Type 0 where
  pub limit : ℕ
  pub free : ℕ
  pub clients : List Connection
  pub served : List Connection

-- `none_served` is how the program starts: no connection is served yet.
unfoldable pub configure_connection_limit : ℤ → Slots → Outcome Slots
configure_connection_limit (negsuc n) s =
    raised (value_error "connection limit must be a positive integer")
configure_connection_limit (pos n) s =
    if ltb n 1
    then raised (value_error "connection limit must be a positive integer")
    else returned (record s { limit = n; free = n })

-- _clients.discard(c)
unfoldable pub discard : Connection → List Connection → List Connection
discard c = keep (λ d. not (is_same c d))

-- The thread that serves `c` is gone.
unfoldable pub without : Connection → List Connection → List Connection
without c [] = []
without c (d ∷ ds) = let rest = without c ds in if is_same c d then ds else d ∷ rest

-- CONNECTION_SLOTS.release(), of a bounded semaphore
unfoldable pub release : Slots → Outcome Slots
release s =
    if ltb s.free s.limit
    then returned (record s { free = suc s.free })
    else raised (value_error "Semaphore released too many times")

-- What the listener does with a connection that it accepts; `starts` says whether a thread starts.
unfoldable pub accept : Bool → Connection → Slots → Outcome Slots
unfolding discard release
accept starts c s =
    if eqb s.free 0
    then returned s
    else if starts
    then returned (record s { free = s.free - 1; clients = c ∷ s.clients; served = c ∷ s.served })
    else release (record s { free = s.free - 1; clients = discard c (c ∷ s.clients) })

-- The `finally` of `_proxy_client`
unfoldable pub finish : Connection → Slots → Outcome Slots
unfolding discard release without
finish c s = release (record s { clients = discard c s.clients; served = without c s.served })

abbrev is_others : ℕ → Connection → Bool
is_others l c = not (eqb l c.listener)

-- `stop` closes the sockets of the listener's clients; their threads end later.
unfoldable pub stop : ℕ → Slots → Slots
stop l s = record s { clients = keep (is_others l) s.clients }

-- What may happen, in any order: a connection comes in, a thread ends, a listener is stopped.
pub data Step : Slots → Slots → Type 0 where
  accepts :
      {s t : Slots} (starts : Bool) (c : Connection) → accept starts c s ≡ returned t → Step s t
  finishes : {s t : Slots} (c : Connection) → In c s.served → finish c s ≡ returned t → Step s t
  stops : {s : Slots} (l : ℕ) → Step s (stop l s)

pub data Reach (s : Slots) : Slots → Type 0 where
  here : Reach s s
  next : {t u : Slots} → Reach s t → Step t u → Reach s u

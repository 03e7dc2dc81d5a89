-- ===== src/ProxyServer/Stream.antt =====
-- recv_exact of vps/proxy_server.py over a TCP stream, whose bytes come in pieces of any length. An
-- empty piece is what `recv` returns when the peer has closed.
use kui_local_multi_exit.Prelude.{
  ℕ, zero, suc, ◌-◌, List, [], ◌∷◌, ◌++◌, length, take, drop, leb, ltb, if◌then◌else◌,
}
use kui_local_multi_exit.Prelude.Exec.{Exec, returned, raised, os_error}
use kui_local_multi_exit.ProxyServer.{Bytes}

-- sock.recv(n): what is there of the next piece, up to `n` bytes
unfoldable pub recv : ℕ → List Bytes → Bytes × List Bytes
recv n [] = ([], [])
recv n ([] ∷ cs) = ([], [] ∷ cs)
recv n ((b ∷ bs) ∷ cs) =
    let c = b ∷ bs in if leb (length c) n then (c, cs) else (take n c, drop n c ∷ cs)

-- The loop of `recv_exact`, which has `got` so far.
unfoldable pub recv_loop : ℕ → ℕ → Bytes → Exec (List Bytes) Bytes
unfolding recv
recv_loop zero size got cs =
    (if ltb (length got) size then raised (os_error "Unexpected disconnect.") else returned got, cs)
recv_loop (suc fuel) size got cs =
    let r = recv (size - length got) cs in
    let rest = recv_loop fuel size (got ++ r.0) r.1 in
    if ltb (length got) size
    then elim r.0 [ [] ↦ (raised (os_error "Unexpected disconnect."), r.1) | b ∷ bs ↦ rest ]
    else (returned got, cs)

unfoldable pub recv_exact : ℕ → Exec (List Bytes) Bytes
unfolding recv_loop
recv_exact size = recv_loop size size []

-- All that the peer sends before it closes.
unfoldable pub received : List Bytes → Bytes
received [] = []
received ([] ∷ cs) = []
received ((b ∷ bs) ∷ cs) = (b ∷ bs) ++ received cs

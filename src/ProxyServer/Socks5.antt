-- ===== src/ProxyServer/Socks5.antt =====
-- ProxyListener._socks5_client of vps/proxy_server.py. What `relay` and `_udp_relay` pass on is no
-- part of it, nor what they raise, which is caught and ends the conversation like their return.
pub mod Conversation
pub mod Admission
pub mod Served
use kui_local_multi_exit.Prelude.{
  ℕ, zero, suc, ◌+◌, ◌*◌, ◌/◌, ◌%◌, Bool, true, false, not, ◌||◌, Option, none, some, List, [], ◌∷◌,
  ◌++◌, any, eqb, ltb, if◌then◌else◌,
}
use kui_local_multi_exit.Prelude.Exec.{
  Exec, Outcome, returned, raised, value_error, os_error, pure, raise, attempt, ◌>>=◌, ◌>>◌,
}
use kui_local_multi_exit.ProxyServer.{
  Bytes, Credentials, Host, ipv4, named, ipv6, Act, dialled, relaying, upstream_closed,
  udp_relaying, Session, Network, is_blank, credentials_match, sendall, act, create_connection,
}
use kui_local_multi_exit.ProxyServer.Stream.{recv_exact}

-- recv_exact(client, n)
abbrev pub read : ℕ → Exec Session Bytes
read n s = let r = recv_exact n s.incoming in (r.0, record s { incoming = r.1 })

abbrev pub byte_at : ℕ → Bytes → ℕ
byte_at n [] = 0
byte_at zero (b ∷ bs) = b
byte_at (suc n) (b ∷ bs) = byte_at n bs

-- recv_exact(client, 1)[0]
abbrev pub read_byte : Exec Session ℕ
read_byte = do b ← read 1; pure (byte_at 0 b)

abbrev pub has : ℕ → Bytes → Bool
has b = any (eqb b)

-- int.from_bytes(bs, "big") of two bytes
abbrev pub from_bytes : Bytes → ℕ
from_bytes bs = byte_at 0 bs * 256 + byte_at 1 bs

-- The part of the conversation that begins with a user name of `size` bytes.
unfoldable pub login : Network → Credentials → ℕ → Exec Session Bool
login net c user_size = do
  username ← read user_size
  size ← read_byte
  password ← read size
  if not (credentials_match c username password)
      then (do sendall net (1 ∷ 1 ∷ []); pure false)
      else (do sendall net (1 ∷ 0 ∷ []); pure true)

-- The conversation up to the answer to the password; whether it goes on.
unfoldable pub authenticate : Network → Credentials → Exec Session Bool
authenticate net c = do
  count ← read_byte
  methods ← read count
  if not (has 2 methods) then (do sendall net (5 ∷ 255 ∷ []); pure false) else (do
    sendall net (5 ∷ 2 ∷ [])
    request ← read 2
    if not (eqb (byte_at 0 request) 1) then pure false else login net c (byte_at 1 request))

-- bs.decode("ascii")
abbrev decode_ascii : Bytes → Exec Session Host
decode_ascii bs =
    if any (λ b. not (ltb b 128)) bs then raise (value_error "ascii") else pure (named bs)

unfoldable pub read_host : ℕ → Exec Session (Option Host)
read_host kind =
    if eqb kind 1
    then (do b ← read 4; pure (some (ipv4 b)))
    else if eqb kind 3
    then (do size ← read_byte; b ← read size; host ← decode_ascii b; pure (some host))
    else if eqb kind 4
    then (do b ← read 16; pure (some (ipv6 b)))
    else pure none

abbrev pub success : Bytes
success = 5 ∷ 0 ∷ 0 ∷ 1 ∷ 0 ∷ 0 ∷ 0 ∷ 0 ∷ []

-- try: m  finally: act
abbrev pub finally : Exec Session Unit → Act → Exec Session Unit
finally m a s = let r = m s in (r.0, (act a r.1).1)

unfoldable pub serve_connect : Network → Option Host → Exec Session Unit
serve_connect net none = pure tt
serve_connect net (some host) = do
  bytes ← read 2
  let port = from_bytes bytes
  create_connection net host port
  finally (do sendall net (success ++ (0 ∷ 0 ∷ [])); act (relaying host port))
      (upstream_closed host port)

-- The address of a UDP request is read and dropped; whether its kind is known.
unfoldable pub skip_host : ℕ → Exec Session Bool
skip_host kind =
    if eqb kind 1
    then (do read 4; pure true)
    else if eqb kind 3
    then (do size ← read_byte; read size; pure true)
    else if eqb kind 4
    then (do read 16; pure true)
    else pure false

abbrev bind_udp : Network → ℕ → Exec Session Unit
bind_udp net port = if net.binds port then pure tt else raise (os_error "bind")

unfoldable pub serve_associate : Network → ℕ → Bool → Exec Session Unit
serve_associate net port false = pure tt
serve_associate net port true = do
  read 2
  bind_udp net port
  sendall net (success ++ (port / 256 ∷ port % 256 ∷ []))
  act udp_relaying

unfoldable pub serve : Network → ℕ → Exec Session Unit
serve net port = do
  head ← read 4
  if not (eqb (byte_at 0 head) 5)
      then pure tt
      else if eqb (byte_at 1 head) 1
      then (do host ← read_host (byte_at 3 head); serve_connect net host)
      else if eqb (byte_at 1 head) 3
      then (do known ← skip_host (byte_at 3 head); serve_associate net port known)
      else sendall net (5 ∷ 7 ∷ 0 ∷ 1 ∷ 0 ∷ 0 ∷ 0 ∷ 0 ∷ 0 ∷ 0 ∷ [])

-- What stands under `try`; `port` is the slot's own port, to which a UDP relay is bound.
unfoldable pub converse : Network → Credentials → ℕ → Exec Session Unit
converse net c port = do accepted ← authenticate net c; if accepted then serve net port else pure tt

unfoldable pub socks5_client : Network → Credentials → ℕ → Exec Session Unit
socks5_client net c port =
    if is_blank c.user || is_blank c.password
    then sendall net (5 ∷ 255 ∷ [])
    else attempt (converse net c port) (λ e. pure tt)

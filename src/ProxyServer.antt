-- ===== src/ProxyServer.antt =====
-- vps/proxy_server.py: the listeners' credentials, and a conversation with one client. A client
-- sends pieces of bytes; what the program does besides answering is a list of acts.
pub mod Stream
pub mod Reading
pub mod Access
pub mod Socks5
pub mod Connections
pub mod Udp
use kui_local_multi_exit.Prelude.{
  ℕ, ◌+◌, ◌*◌, String, Bool, true, false, not, ◌&&◌, ◌||◌, List, [], ◌∷◌, ◌++◌, map, keep, any, eqb,
  if◌then◌else◌,
}
use kui_local_multi_exit.Prelude.Text.{is_empty}
use kui_local_multi_exit.Prelude.Url.{encode}
use kui_local_multi_exit.Prelude.Exec.{Exec, Outcome, returned, raised, os_error}

abbrev pub Bytes : Type 0
Bytes = List ℕ

-- PROXY_USER, PROXY_PASS and _ADDITIONAL_PROXY_CREDENTIALS
pub record Credentials : Type 0 where
  pub user : Bytes
  pub password : Bytes
  pub additional : List (Bytes × Bytes)

abbrev pub is_blank : Bytes → Bool
is_blank [] = true
is_blank (b ∷ bs) = false

-- hmac.compare_digest(x, y)
unfoldable pub same_bytes : Bytes → Bytes → Bool
same_bytes [] [] = true
same_bytes [] (y ∷ ys) = false
same_bytes (x ∷ xs) [] = false
same_bytes (x ∷ xs) (y ∷ ys) = eqb x y && same_bytes xs ys

unfoldable pub set_credentials : String → String → Credentials → Credentials
set_credentials user password c = record c { user = encode user; password = encode password }

abbrev is_complete : String × String → Bool
is_complete e = not (is_empty e.0) && not (is_empty e.1)

unfoldable pub set_additional_credentials : List (String × String) → Credentials → Credentials
set_additional_credentials entries c = record c {
  additional = map (λ e. (encode e.0, encode e.1)) (keep is_complete entries);
}

abbrev pub fits : Bytes → Bytes → Bytes × Bytes → Bool
fits username password e =
    not (is_blank e.0) && not (is_blank e.1) && same_bytes username e.0 && same_bytes password e.1

unfoldable pub credentials_match : Credentials → Bytes → Bytes → Bool
credentials_match c username password =
    any (fits username password) ((c.user, c.password) ∷ c.additional)

unfoldable pub set_enabled : Bool → Credentials → Credentials
unfolding set_credentials set_additional_credentials
set_enabled enabled c =
    if not enabled then set_additional_credentials [] (set_credentials "" "" c) else c

-- A destination: the text that `inet_ntoa` or `inet_ntop` makes of the bytes of an address, or a
-- name.
pub data Host : Type 0 where
  ipv4 named ipv6 : Bytes → Host

pub data Act : Type 0 where
  dialled relaying upstream_closed : Host → ℕ → Act
  udp_relaying : Act

-- The conversation: what the client still sends, what it was sent, and what was done for it.
pub record Session : Type 0 where
  pub incoming : List Bytes
  pub sent : Bytes
  pub acts : List Act

-- What the sockets answer: whether the client takes more bytes behind those it was sent, whether
-- `create_connection` connects, and whether a UDP socket can be bound to the slot's port.
pub record Network : Type 0 where
  pub takes : Bytes → Bytes → Bool
  pub connects : Host → ℕ → Bool
  pub binds : ℕ → Bool

-- client.sendall(b)
abbrev pub sendall : Network → Bytes → Exec Session Unit
sendall net b s =
    if net.takes s.sent b
    then (returned tt, record s { sent = s.sent ++ b })
    else (raised (os_error "sendall"), s)

abbrev pub act : Act → Exec Session Unit
act a s = (returned tt, record s { acts = s.acts ++ (a ∷ []) })

-- create_connection((host, port), mark)
abbrev pub create_connection : Network → Host → ℕ → Exec Session Unit
create_connection net host port s =
    if net.connects host port
    then act (dialled host port) s
    else (raised (os_error "create_connection"), s)

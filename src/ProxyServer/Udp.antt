-- ===== src/ProxyServer/Udp.antt =====
-- ProxyListener._udp_relay of vps/proxy_server.py: a datagram of the client and the answer to it. The
-- socket gives the datagrams, with the addresses that they come from, and the time-outs; names are
-- resolved by `resolve_host`.
pub mod Parcels
pub mod Client
use kui_local_multi_exit.Prelude.{
  ℕ, suc, String, ◌==◌, ◌&&◌, ◌-◌, ◌+◌, ◌*◌, ◌/◌, ◌%◌, Bool, true, false, not, ◌||◌, Option, none,
  some, List, [], ◌∷◌, ◌++◌, any, eqb, ltb, length, take, drop, if◌then◌else◌,
}
use kui_local_multi_exit.ProxyServer.{Bytes, Host, ipv4, named, ipv6}
use kui_local_multi_exit.ProxyServer.Socks5.{byte_at, from_bytes}

-- What a datagram asks for.
pub record Parcel : Type 0 where
  pub host : Host
  pub port : ℕ
  pub payload : Bytes

-- data[a:b]
abbrev pub slice : ℕ → ℕ → Bytes → Bytes
slice a b bytes = take (b - a) (drop a bytes)

-- int.from_bytes(bs, "big") of at most two bytes
abbrev pub number_of : Bytes → ℕ
number_of [] = 0
number_of (a ∷ []) = a
number_of (a ∷ b ∷ bs) = a * 256 + b

abbrev is_ascii : Bytes → Bool
is_ascii name = not (any (λ b. not (ltb b 128)) name)

-- The address, the port and the payload of a datagram; `none` where it is left aside, by `continue`
-- or because of an exception.
unfoldable pub parse_datagram : Bytes → Option Parcel
parse_datagram d =
    if ltb (length d) 10
    then none
    else if not (eqb (byte_at 2 d) 0)
    then none
    else if eqb (byte_at 3 d) 1
    then some
        (record { host = ipv4 (slice 4 8 d); port = number_of (slice 8 10 d); payload = drop 10 d })
    else if eqb (byte_at 3 d) 3
    then (let n = byte_at 4 d in
        let name = slice 5 (5 + n) d in
        if is_ascii name
        then some (record {
          host = named name;
          port = number_of (slice (5 + n) (7 + n) d);
          payload = drop (7 + n) d;
        })
        else none)
    else if eqb (byte_at 3 d) 4
    then (let address = slice 4 20 d in
        if eqb (length address) 16
        then some
            (record { host = ipv6 address; port = number_of (slice 20 22 d); payload = drop 22 d })
        else none)
    else none

-- The header of a reply from an address of IPv4 or IPv6.
unfoldable pub reply_header : Bool → Bytes → ℕ → Bytes
reply_header is_v4 address port =
    (0 ∷ 0 ∷ 0 ∷ (if is_v4 then 1 else 4) ∷ address) ++ (port / 256 ∷ port % 256 ∷ [])

-- Where a datagram of the client came from, and what is sent.
abbrev pub Peer : Type 0
Peer = String × ℕ

pub data Sent : Type 0 where
  to_target : String → ℕ → Bytes → Sent
  to_client : Peer → Bytes → Sent

-- A reply that came from an address of IPv4 or IPv6 and a port.
pub record Reply : Type 0 where
  pub is_v4 : Bool
  pub address : Bytes
  pub port : ℕ
  pub payload : Bytes

-- The relay: the address of its client, and what it has sent.
pub record Relay : Type 0 where
  pub client : Option Peer
  pub sent : List Sent

-- The addresses that `resolve_host` finds for a host, and the reply that comes back from an address
-- and a port, if one comes in time.
pub record Internet : Type 0 where
  pub resolve_host : Host → List String
  pub reply_of : String → ℕ → Bytes → Option Reply

abbrev pub is_peer : Peer → Peer → Bool
is_peer a b = a.0 == b.0 && eqb a.1 b.1

abbrev pub answer_client : Peer → Option Reply → Relay → Relay
answer_client peer none r = r
answer_client peer (some p) r = record r {
  sent = r.sent ++ (to_client peer (reply_header p.is_v4 p.address p.port ++ p.payload) ∷ []);
}

abbrev pub forward : Internet → Peer → Parcel → List String → Relay → Relay
forward net peer p [] r = r
forward net peer p (target ∷ more) r =
    answer_client peer (net.reply_of target p.port p.payload)
      (record r { sent = r.sent ++ (to_target target p.port p.payload ∷ []) })

-- Datagrams are relayed for the address that sent the first one, and for no other.
unfoldable pub admit_peer : Peer → Relay → Option Relay
admit_peer peer r = elim r.client [
  | none ↦ some (record r { client = some peer })
  | some c ↦ if is_peer c peer then some r else none
]

-- One round of the loop of `_udp_relay`, with the datagram and the address that it came from.
unfoldable pub relay_datagram : Internet → Bytes → Peer → Relay → Relay
relay_datagram net d peer r = elim (parse_datagram d) [
  | none ↦ r
  | some p ↦ elim (admit_peer peer r) [
    | none ↦ r
    | some admitted ↦ forward net peer p (net.resolve_host p.host) admitted
  ]
]

unfoldable pub udp_relay : Internet → List (Bytes × Peer) → Relay → Relay
udp_relay net [] r = r
udp_relay net ((d, peer) ∷ more) r = udp_relay net more (relay_datagram net d peer r)

-- ===== src/ProxyServer/Udp/Parcels.antt =====
-- _udp_relay of vps/proxy_server.py: reading a datagram gives back what was written into it.
use mathlib.Core.List.{append_assoc}
use kui_local_multi_exit.Prelude.{
  ℕ, suc, ◌+◌, ◌-◌, ◌*◌, ◌/◌, ◌%◌, ◌≤◌, Bool, true, false, some, [], ◌∷◌, ◌++◌, ◌≡◌, ◌∙◌, refl, ap,
  arith, ltb, length, drop, if◌then◌else◌, length-append, take-front, drop-front, drop_past,
}
use kui_local_multi_exit.ProxyServer.{Bytes, Host, ipv4, named, ipv6}
use kui_local_multi_exit.ProxyServer.Socks5.Served.{IsSendable, kind_of, address}
use kui_local_multi_exit.ProxyServer.Udp.{parse_datagram, reply_header}

-- A datagram for `host` at `port`.
abbrev pub datagram : Host → ℕ → Bytes → Bytes
datagram host port payload =
    0 ∷ 0 ∷ 0 ∷ kind_of host ∷ (address host ++ (port / 256 ∷ port % 256 ∷ payload))

-- A client's datagram of at least ten bytes is read as what the client wrote into it.
pub parse-datagram :
    (host : Host) (port : ℕ) (payload : Bytes)
    → IsSendable host
    → 10 ≤ length (datagram host port payload)
    → parse_datagram (datagram host port payload)
      ≡ some (record { host = host; port = port; payload = payload })
unfolding parse_datagram
parse-datagram (ipv4 b) port payload l h =
    let tail = port / 256 ∷ port % 256 ∷ payload in
    let long : ltb (length (datagram (ipv4 b) port payload)) 10 ≡ false = ground arith in
    let whole : port / 256 * 256 + port % 256 ≡ port = omega arith in
    let end : 6 ≡ length b + 2 = omega arith in
    let rest : drop 6 (b ++ tail) ≡ payload =
      ap (λ k. drop k (b ++ tail)) end ∙ drop_past b tail 2 in
    rw (long, take-front b tail 4 l, drop-front b tail 4 l, rest, whole) refl
parse-datagram (ipv6 b) port payload l h =
    let tail = port / 256 ∷ port % 256 ∷ payload in
    let long : ltb (length (datagram (ipv6 b) port payload)) 10 ≡ false = ground arith in
    let whole : port / 256 * 256 + port % 256 ≡ port = omega arith in
    let end : 18 ≡ length b + 2 = omega arith in
    let rest : drop 18 (b ++ tail) ≡ payload =
      ap (λ k. drop k (b ++ tail)) end ∙ drop_past b tail 2 in
    rw (long, take-front b tail 16 l, l, drop-front b tail 16 l, rest, whole) refl
parse-datagram (named b) port payload l h =
    let tail = port / 256 ∷ port % 256 ∷ payload in
    let d = datagram (named b) port payload in
    let n = length b in
    let long : ltb (length d) 10 ≡ false = ground arith in
    let whole : port / 256 * 256 + port % 256 ≡ port = omega arith in
    let size : n ≡ 5 + n - 5 = omega arith in
    let two : 7 + n - (5 + n) ≡ 2 = omega arith in
    let five : 5 + n ≡ suc (suc (suc (suc (suc n)))) = omega arith in
    let seven : 7 + n ≡ suc (suc (suc (suc (suc (n + 2))))) = omega arith in
    let port_at : drop (5 + n) d ≡ tail = ap (λ k. drop k d) five ∙ drop-front b tail n refl in
    let rest : drop (7 + n) d ≡ payload = ap (λ k. drop k d) seven ∙ drop_past b tail 2 in
    rw (long, take-front b tail (5 + n - 5) size, l, port_at, rest, two, whole) refl

-- A reply reads, as a datagram, as the address and the port that it came from and what it brought.
pub parse-reply_header :
    (is_v4 : Bool) (from : Bytes) (port : ℕ) (payload : Bytes)
    → length from ≡ (if is_v4 then 4 else 16)
    → parse_datagram (reply_header is_v4 from port ++ payload)
      ≡ some
          (record { host = if is_v4 then ipv4 from else ipv6 from; port = port; payload = payload })
unfolding reply_header
parse-reply_header true from port payload l =
    rw (append_assoc from (port / 256 ∷ port % 256 ∷ []) payload) (
      parse-datagram (ipv4 from) port payload l
        (omega (arith, length-append from (port / 256 ∷ port % 256 ∷ payload))))
parse-reply_header false from port payload l =
    rw (append_assoc from (port / 256 ∷ port % 256 ∷ []) payload) (
      parse-datagram (ipv6 from) port payload l
        (omega (arith, length-append from (port / 256 ∷ port % 256 ∷ payload))))

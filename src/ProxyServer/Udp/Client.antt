-- ===== src/ProxyServer/Udp/Client.antt =====
-- _udp_relay of vps/proxy_server.py: the relay works for one client.
use kui_local_multi_exit.Prelude.{
  String, eq_iff, eq_refl, Bool, true, false, Option, none, some, List, [], ◌∷◌, ◌++◌, ◌≡◌, refl,
  sym, subst, arith, All, keep, if◌then◌else◌, Bool-cases, inl, inr, Option-cases,
}
use kui_local_multi_exit.ProxyServer.{Bytes}
use kui_local_multi_exit.ProxyServer.Udp.{
  Peer, Sent, to_target, to_client, Relay, Reply, Internet, Parcel, is_peer, parse_datagram,
  admit_peer, forward, answer_client, relay_datagram, udp_relay,
}

-- Answers go to `c`.
abbrev GoesTo : Peer → Sent → Type 0
GoesTo c (to_target target port payload) = Unit
GoesTo c (to_client peer bytes) = peer ≡ c

abbrev pub IsRelayOf : Peer → Relay → Type 0
IsRelayOf c r = (r.client ≡ some c) × All (GoesTo c) r.sent

All-snoc :
    (c : Peer) (xs : List Sent) (x : Sent)
    → All (GoesTo c) xs
    → GoesTo c x
    → All (GoesTo c) (xs ++ (x ∷ []))
All-snoc c [] x h g = (g, tt)
All-snoc c (y ∷ ys) x h g = (h.0, All-snoc c ys x h.1 g)

answer-IsRelayOf :
    (c : Peer) (p : Option Reply) (r : Relay) → IsRelayOf c r → IsRelayOf c (answer_client c p r)
answer-IsRelayOf c none r h = h
answer-IsRelayOf c (some p) r h = (h.0, All-snoc c r.sent _ h.1 refl)

forward-IsRelayOf :
    (net : Internet) (c : Peer) (p : Parcel) (targets : List String) (r : Relay)
    → IsRelayOf c r
    → IsRelayOf c (forward net c p targets r)
forward-IsRelayOf net c p [] r h = h
forward-IsRelayOf net c p (target ∷ more) r h =
    answer-IsRelayOf c (net.reply_of target p.port p.payload) _ (h.0, All-snoc c r.sent _ h.1 tt)

is_peer_refl : (c : Peer) → is_peer c c ≡ true
is_peer_refl c = ground (arith, eq_refl c.0)

same_peer : (c d : Peer) → is_peer c d ≡ true → c ≡ d
same_peer c d h = ground (arith, eq_iff c.0 d.0)

admit_bound :
    (c peer : Peer) (r : Relay)
    → r.client ≡ some c
    → admit_peer peer r ≡ (if is_peer c peer then some r else none)
unfolding admit_peer
admit_bound c peer r h = rw h refl

module _ (net : Internet) (d : Bytes) (peer : Peer) (r : Relay) where
  step_unread : parse_datagram d ≡ none → relay_datagram net d peer r ≡ r
  unfolding relay_datagram
  step_unread e = rw (relay_datagram, e) refl

  step_first :
      (p : Parcel)
      → parse_datagram d ≡ some p
      → r.client ≡ none
      → relay_datagram net d peer r
        ≡ forward net peer p (net.resolve_host p.host) (record r { client = some peer })
  unfolding relay_datagram admit_peer
  step_first p e h = rw (relay_datagram, e, h) refl

  step_mine :
      (c : Peer) (p : Parcel)
      → parse_datagram d ≡ some p
      → r.client ≡ some c
      → is_peer c peer ≡ true
      → relay_datagram net d peer r ≡ forward net peer p (net.resolve_host p.host) r
  unfolding relay_datagram
  step_mine c p e h q = let a = admit_bound c peer r h in rw (relay_datagram, e, a, q) refl

  step_other :
      (c : Peer) → r.client ≡ some c → is_peer c peer ≡ false → relay_datagram net d peer r ≡ r
  unfolding relay_datagram
  step_other c h q = elim (Option-cases (parse_datagram d)) [
    | inl e ↦ step_unread e
    | inr (p, e) ↦ let a = admit_bound c peer r h in rw (relay_datagram, e, a, q) refl
  ]

  -- One datagram, for a relay that has its client.
  step-IsRelayOf : (c : Peer) → IsRelayOf c r → IsRelayOf c (relay_datagram net d peer r)
  step-IsRelayOf c h = elim (Bool-cases (is_peer c peer)) [
    | inr q ↦ rw (step_other c h.0 q) h
    | inl q ↦ elim (Option-cases (parse_datagram d)) [
      | inl e ↦ rw (step_unread e) h
      | inr (p, e) ↦
          let served =
            subst (λ x. IsRelayOf c (forward net x p (net.resolve_host p.host) r))
              (same_peer c peer q) (forward-IsRelayOf net c p (net.resolve_host p.host) r h) in
          rw (step_mine c p e h.0 q) served
    ]
  ]

abbrev pub is_from : Peer → Bytes × Peer → Bool
is_from c d = is_peer c d.1

-- The relay works for `c`, as if no other address had sent anything.
abbrev Serves : Internet → Peer → List (Bytes × Peer) → Relay → Type 0
Serves net c ds r =
    IsRelayOf c (udp_relay net ds r) × (udp_relay net ds r ≡ udp_relay net (keep (is_from c) ds) r)

taken-Serves :
    (net : Internet) (c : Peer) (d : Bytes) (peer : Peer) (ds : List (Bytes × Peer)) (r : Relay)
    → is_peer c peer ≡ true
    → Serves net c ds (relay_datagram net d peer r)
    → Serves net c ((d, peer) ∷ ds) r
unfolding udp_relay
taken-Serves net c d peer ds r e h = rw e h

skipped-Serves :
    (net : Internet) (c : Peer) (d : Bytes) (peer : Peer) (ds : List (Bytes × Peer)) (r : Relay)
    → relay_datagram net d peer r ≡ r
    → Serves net c ds r
    → Serves net c ((d, peer) ∷ ds) r
unfolding udp_relay
skipped-Serves net c d peer ds r same h = elim (Bool-cases (is_peer c peer)) [
  | inl e ↦ taken-Serves net c d peer ds r e (subst (Serves net c ds) (sym same) h)
  | inr e ↦ rw e (
      subst
        (λ q.
          IsRelayOf c (udp_relay net ds q)
          × (udp_relay net ds q ≡ udp_relay net (keep (is_from c) ds) r))
        (sym same) h)
]

bound-Serves :
    (net : Internet) (ds : List (Bytes × Peer)) (c : Peer) (r : Relay)
    → IsRelayOf c r
    → Serves net c ds r
unfolding udp_relay
bound-Serves net [] c r h = (h, refl)
bound-Serves net ((d, peer) ∷ ds) c r h = elim (Bool-cases (is_peer c peer)) [
  | inl e ↦
      taken-Serves net c d peer ds r e
        (bound-Serves net ds c (relay_datagram net d peer r) (step-IsRelayOf net d peer r c h))
  | inr e ↦
      skipped-Serves net c d peer ds r (step_other net d peer r c h.0 e) (bound-Serves net ds c r h)
]

abbrev pub new_relay : Relay
new_relay = record { client = none; sent = [] }

-- The address that the first well-formed datagram comes from.
abbrev pub first_sender : List (Bytes × Peer) → Option Peer
first_sender [] = none
first_sender ((d, peer) ∷ ds) =
    let rest = first_sender ds in elim (parse_datagram d) [ none ↦ rest | some p ↦ some peer ]

-- A UDP relay works for the address that its first well-formed datagram comes from: all answers go to
-- it, and what else the relay sends is what it would send if no other address had sent anything.
pub relay_serves_first_sender :
    (net : Internet) (ds : List (Bytes × Peer)) (c : Peer)
    → first_sender ds ≡ some c
    → IsRelayOf c (udp_relay net ds new_relay)
      × (udp_relay net ds new_relay ≡ udp_relay net (keep (is_from c) ds) new_relay)
relay_serves_first_sender net [] c h = absurd (cc)
relay_serves_first_sender net ((d, peer) ∷ ds) c h = elim (Option-cases (parse_datagram d)) [
  | inl e ↦
      skipped-Serves net c d peer ds new_relay (step_unread net d peer new_relay e)
        (relay_serves_first_sender net ds c (rw (first_sender, e) at h))
  | inr (p, e) ↦
      let first = rw (first_sender, e) at h in
      let mine : peer ≡ c = cc in
      let admitted =
        forward-IsRelayOf net peer p (net.resolve_host p.host)
          (record new_relay { client = some peer }) (refl, tt) in
      subst (λ x. Serves net x ((d, peer) ∷ ds) new_relay) mine
        (taken-Serves net peer d peer ds new_relay (is_peer_refl peer)
          (bound-Serves net ds peer _ (rw (step_first net d peer new_relay p e refl) admitted)))
]

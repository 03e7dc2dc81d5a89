-- ===== src/Examples/Network.antt =====
-- Examples at the proxy server: a client that knows the password, and others.
use kui_local_multi_exit.Prelude.{
  ℕ, String, true, false, some, List, [], ◌∷◌, ◌++◌, ◌≡◌, ◌≢◌, ◌<◌, ◌≤◌, ◌+◌, ◌-◌, refl, keep,
}
use kui_local_multi_exit.Prelude.Int.{pos}
use kui_local_multi_exit.Prelude.Exec.{returned}
use kui_local_multi_exit.ProxyServer.{
  Bytes, Credentials, Host, ipv4, named, Act, dialled, relaying, upstream_closed, Network,
  credentials_match, set_enabled, is_blank,
}
use kui_local_multi_exit.ProxyServer.Access.{disabled_proxy_refuses}
use kui_local_multi_exit.ProxyServer.Stream.{received}
use kui_local_multi_exit.ProxyServer.Socks5.{socks5_client, success}
use kui_local_multi_exit.ProxyServer.Socks5.Served.{new_session, socks5_client_serves}
use kui_local_multi_exit.ProxyServer.Socks5.Admission.{IsAdmitted, service_needs_password}
use kui_local_multi_exit.ProxyServer.Connections.{
  Connection, Slots, Reach, here, next, accepts, accept, configure_connection_limit,
}
use kui_local_multi_exit.ProxyServer.Connections.Balance.{IsSound, reachable_slots-IsSound}
use kui_local_multi_exit.ProxyServer.Connections.Serving.{IsServing, reachable_slots-IsServing}
use kui_local_multi_exit.SocksBridge.{User, Config, build_socks5_bridge_config}
use kui_local_multi_exit.SocksBridge.Paths.{Publishes, built, bridge-Publishes}
use kui_local_multi_exit.SlotConfig.{slot_id, base_proxy_port}
use kui_local_multi_exit.Store.Template.{template_row}
use kui_local_multi_exit.Prelude.Text.{is_empty}
use kui_local_multi_exit.ProxyServer.Udp.{Internet, Peer, parse_datagram, udp_relay}
use kui_local_multi_exit.ProxyServer.Udp.Client.{
  IsRelayOf, is_from, new_relay, relay_serves_first_sender,
}

abbrev server : Credentials
server = record { user = 117 ∷ []; password = 112 ∷ []; additional = [] }

abbrev open_net : Network
open_net = record { takes = λ sent b. true; connects = λ host port. true; binds = λ port. true }

abbrev target : Host
target = ipv4 (203 ∷ 0 ∷ 113 ∷ 9 ∷ [])

abbrev hello : Bytes
hello = 5 ∷ 1 ∷ 0 ∷ 1 ∷ 203 ∷ 0 ∷ 113 ∷ 9 ∷ 1 ∷ 187 ∷ 22 ∷ 3 ∷ []

abbrev pieces : List Bytes
pieces = (2 ∷ 0 ∷ 2 ∷ 1 ∷ []) ∷ ((1 ∷ 117 ∷ 1 ∷ 112 ∷ []) ++ hello) ∷ []

socks5_client_serves_example :
    (received (socks5_client open_net server 7920 (new_session pieces)).1.incoming ≡ 22 ∷ 3 ∷ [])
    × ((socks5_client open_net server 7920 (new_session pieces)).1.sent
        ≡ 5 ∷ 2 ∷ 1 ∷ 0 ∷ (success ++ (0 ∷ 0 ∷ [])))
    × ((socks5_client open_net server 7920 (new_session pieces)).1.acts
        ≡ dialled target 443 ∷ relaying target 443 ∷ upstream_closed target 443 ∷ [])
unfolding received credentials_match kui_local_multi_exit.ProxyServer.same_bytes
socks5_client_serves_example =
    socks5_client_serves open_net server 7920 (0 ∷ 2 ∷ []) (117 ∷ []) (112 ∷ []) target 443
      (22 ∷ 3 ∷ []) pieces (λ sent b. refl) refl refl refl refl refl refl refl

pieces_are_served : (socks5_client open_net server 7920 (new_session pieces)).1.acts ≢ []
pieces_are_served e = let served = socks5_client_serves_example.2 in absurd (cc)

service_needs_password_example :
    IsAdmitted server (received pieces)
    × (is_blank server.user ≡ false)
    × (is_blank server.password ≡ false)
service_needs_password_example =
    service_needs_password open_net server 7920 pieces pieces_are_served

disabled_proxy_refuses_example :
    (credentials_match (set_enabled false server) (117 ∷ []) (112 ∷ []) ≡ false)
    × ((socks5_client open_net (set_enabled false server) 7920 (new_session pieces)).1.acts ≡ [])
    × ((socks5_client open_net (set_enabled false server) 7920 (new_session pieces)).1.incoming
        ≡ pieces)
disabled_proxy_refuses_example =
    disabled_proxy_refuses open_net server 7920 (117 ∷ []) (112 ∷ []) (new_session pieces)

abbrev client_one : Connection
client_one = record { listener = 1; client = 1 }

abbrev no_slots : Slots
no_slots = record { limit = 0; free = 0; clients = []; served = [] }

abbrev one_slot : Slots
one_slot = record { limit = 1; free = 1; clients = []; served = [] }

abbrev full : Slots
full = record { limit = 1; free = 0; clients = client_one ∷ []; served = client_one ∷ [] }

one_slot_configured : configure_connection_limit (pos 1) no_slots ≡ returned one_slot
unfolding configure_connection_limit
one_slot_configured = refl

one_accepted : accept true client_one one_slot ≡ returned full
unfolding accept
one_accepted = refl

full_reached : Reach one_slot full
full_reached = next here (accepts true client_one one_accepted)

reachable_slots-IsSound_example : IsSound full × (pos full.limit ≡ pos 1) × (0 < full.limit)
reachable_slots-IsSound_example =
    reachable_slots-IsSound (pos 1) no_slots one_slot full (refl, refl) one_slot_configured
      full_reached

reachable_slots-IsServing_example : IsServing full
reachable_slots-IsServing_example =
    reachable_slots-IsServing (pos 1) no_slots one_slot full (refl, refl) one_slot_configured
      full_reached

abbrev internet : Internet
internet = record {
  resolve_host = λ host. "203.0.113.9" ∷ [];
  reply_of = λ at port payload.
      some (record { is_v4 = true; address = 203 ∷ 0 ∷ 113 ∷ 9 ∷ []; port = 53; payload = 8 ∷ [] });
}

abbrev first_peer : Peer
first_peer = ("198.51.100.1", 4000)

abbrev other_peer : Peer
other_peer = ("198.51.100.2", 4000)

abbrev mail : List (Bytes × Peer)
mail =
    (1 ∷ [], other_peer)
    ∷ (0 ∷ 0 ∷ 0 ∷ 1 ∷ 203 ∷ 0 ∷ 113 ∷ 9 ∷ 0 ∷ 53 ∷ 7 ∷ [], first_peer)
    ∷ (0 ∷ 0 ∷ 0 ∷ 1 ∷ 203 ∷ 0 ∷ 113 ∷ 9 ∷ 0 ∷ 53 ∷ 7 ∷ [], other_peer)
    ∷ []

relay_serves_first_sender_example :
    IsRelayOf first_peer (udp_relay internet mail new_relay)
    × (udp_relay internet mail new_relay
        ≡ udp_relay internet (keep (is_from first_peer) mail) new_relay)
unfolding parse_datagram
relay_serves_first_sender_example = relay_serves_first_sender internet mail first_peer refl

abbrev admin : User
admin = record { username = "admin"; password = "secret" }

abbrev gateway : User
gateway = record { username = "kui-gateway"; password = "token" }

abbrev three_slots : Config
three_slots = built 3 7920 1080 "kui-local-multi-exit" admin gateway

three_built :
    build_socks5_bridge_config (pos 3) "kui-local-multi-exit" 7920 1080 admin gateway
    ≡ returned three_slots
unfolding build_socks5_bridge_config
three_built = refl

bridge-Publishes_example :
    (n : ℕ) × (pos 3 ≡ pos n)
    × (1 ≤ n)
    × (n ≤ 34)
    × Publishes n 7920 "kui-local-multi-exit" admin gateway three_slots
    × (is_empty "admin" ≡ false)
    × (is_empty "secret" ≡ false)
    × ((k : ℕ) (country : String) (now : ℕ)
        → ((template_row k country now).id ≡ slot_id (k + 1))
          × ((template_row k country now).proxy_port ≡ base_proxy_port + (k + 1) - 1))
bridge-Publishes_example =
    bridge-Publishes (pos 3) "kui-local-multi-exit" 7920 1080 admin gateway three_slots three_built

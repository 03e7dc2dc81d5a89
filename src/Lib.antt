-- ===== src/Lib.antt =====
-- Verification of the exits of KUI: the part under vps/ that keeps up to 34 OpenVPN exits, each with
-- a local SOCKS/HTTP listener, alive on one host.
--
-- The program. vps/store.py keeps one row per exit slot in SQLite, with a generation that every
-- update, failure and enabling moves on. vps/exit_manager.py owns the slots: a worker per slot
-- reserves a node of the pool (vpngate.py, class NodePool), dials it, installs policy routes
-- (routing.py), checks the tunnel and commits the result under the generation it started with; a
-- health loop probes the path, and a watchdog restarts what has died. runtime_profile.py sizes the
-- whole from the memory and the environment, and slot_config.py names and numbers the slots.
--
-- The files.
--   Prelude          shared names and lemmas: tests, lists, integers, dictionaries, texts, methods
--                    that may raise (Exec), insertion sort
--   SlotConfig       vps/slot_config.py
--   Json, Models     the values of `dict[str, Any]` fields; vps/models.py
--   Store            vps/store.py: the tables, and in its children Slots (update_slot,
--                    record_failure, enable_slot), Runtime (set_runtime and its variants), Template
--                    (initialize) and History (events, check results, settings, vpn_nodes); the
--                    proofs are in Rows, Generation, Fencing, Ports, Updating, Streak and Fresh
--   NodePool         class NodePool of vps/vpngate.py; proofs in Order, Selection and Refresh
--   RuntimeProfile   vps/runtime_profile.py; proofs in Bounds
--   InternalProxy    vps/internal_proxy.py
--   Outside          what happens outside: commands, sockets, threads, timers, clocks
--   Routing          vps/routing.py; proofs in Install
--   Vpngate          the probes of vps/vpngate.py; proofs in Verdicts
--                    Vpngate.Sanitize is sanitize_openvpn_config; proofs in Sanitize.Clean
--   Panel            the panel's tables of vps/store.py, in its children Users, Hosts (vps_list,
--                    node_list) and Subscriptions; proofs in Users.Refinement, Hosts.Cascade,
--                    Hosts.Numbering and Subscriptions.Enabling
--   ProxyServer      vps/proxy_server.py: credentials, and in its children Stream (recv_exact), Socks5
--                    (_socks5_client), Udp (_udp_relay) and Connections (the slots of the connections);
--                    proofs in Reading, Access, Socks5.Conversation, Socks5.Admission, Socks5.Served,
--                    Udp.Parcels, Udp.Client, Connections.Balance and Connections.Serving
--   SocksBridge      vps/socks5_bridge.py; proofs in Paths
--   RealmManager     vps/realm_manager.py; proofs in Processes
--   OpenvpnSources   _deduplicate of vps/openvpn_sources.py; proofs in Best
--   ExitManager      vps/exit_manager.py: the state, and in its children Nodes (selection and
--                    reservation), Lifecycle (start, stop, fail, retry), Readiness (commit_ready),
--                    Probe, Health, Diagnosis and HealthLoop (the checks of a running exit) and
--                    Recovery (the watchdog), Egress (the checks of an attempt's address)
--                    and Worker (its commit and its end);
--                    proofs in Egress.Locked, Nodes.Exclusive, Nodes.Complete, Lifecycle.StopOrder,
--                    Lifecycle.Stopped, Lifecycle.Retry, Readiness.Commit, Readiness.Serving,
--                    Readiness.AnyCountry, Worker.Settled, Worker.Ended,
--                    Diagnosis.Shared, StaleWorker and its children, Startup
--                    and Traces
--   Examples         test data, and each result at a concrete input
--
-- How the code is modelled. A method that writes to an object and may raise is a function from the
-- object to an outcome and the object (Prelude.Exec); what was written before an exception stays
-- written. Locks make each method one step. Every act outside of the program is an effect on a
-- trace, and every answer is a function of the trace (Outside), so that an arbitrary `Outside` stands
-- for whatever may happen. A table is the list of its rows, a dict an association list. Clocks count
-- milliseconds in the pool and the manager and seconds in the store, as in the code.
--
-- Bounds and fuel. Two loops are on fuel. Each round of `_select_node` skips one more node of the
-- pool, and its fuel is the number of the pool's nodes and one more. Each round of `recv_exact` reads a
-- byte at least, and its fuel is the number of bytes that are asked for.
--
-- Not modelled: the panel's HTTP API (vps/local_api.py), the agent (vps/agent.py), the
-- node and subscription formats (vps/bridge_nodes.py, vps/subscriptions.py, vps/lite_manager.py), the
-- gateway (vps/reality_gateway.py), the HTTP
-- proxy and the name resolution of vps/proxy_server.py, run_bridge of vps/socks5_bridge.py,
-- the downloads of vps/openvpn_sources.py, the start of OpenVPN in the connection worker and the
-- waits of vps/exit_manager.py, and the files in JavaScript, HTML and shell. Left out of what is
-- modelled: an `ip` command that cannot be started, a KUI_OPENVPN_SOCKS_PROXY that is no socks5 URL,
-- the text of a real number in an INTEGER column of the panel, digits other than those of ASCII and
-- underscores in the texts that `int` reads, and another write between the statements of one method
-- of the store.
pub mod Prelude
pub mod SlotConfig
pub mod Json
pub mod Models
pub mod Store
pub mod NodePool
pub mod RuntimeProfile
pub mod Outside
pub mod Routing
pub mod ExitManager
pub mod InternalProxy
pub mod Vpngate
pub mod Panel
pub mod OpenvpnSources
pub mod ProxyServer
pub mod SocksBridge
pub mod RealmManager
pub mod Examples

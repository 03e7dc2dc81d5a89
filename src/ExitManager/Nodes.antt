-- ===== src/ExitManager/Nodes.antt =====
-- vps/exit_manager.py: which OpenVPN node a slot dials. No two slots are given the same node.
pub mod Exclusive
pub mod Complete
use Prim.Native.Char.{Char, code}
use kui_local_multi_exit.Prelude.{
  ℕ, zero, suc, String, Bool, true, false, not, ◌&&◌, ◌||◌, Option, none, some, List, [], ◌∷◌, ◌++◌,
  ◌==◌, leb, eqb, any, keep, length, map, if◌then◌else◌,
}
use kui_local_multi_exit.Prelude.Dict
use kui_local_multi_exit.Prelude.Dict.{Dict}
use kui_local_multi_exit.Prelude.Text.{after_prefix, lstrip, is_space, is_empty, upper}
use kui_local_multi_exit.Prelude.Exec.{Exec, returned}
use kui_local_multi_exit.ExitManager.{Manager, managed_slots}
use kui_local_multi_exit.NodePool
use kui_local_multi_exit.NodePool.{NodePool, is_member}
use kui_local_multi_exit.Store.{Node}

abbrev is_word : Char → Bool
is_word c =
    let n = code c in
    (leb 48 n && leb n 57) || ((leb 65 n && leb n 90) || ((leb 97 n && leb n 122) || eqb n 95))

abbrev at_boundary : String → Bool
at_boundary String.[] = true
at_boundary (String.◌∷◌ c s) = not (is_word c)

abbrev tcp_behind_blanks : String → Bool
tcp_behind_blanks String.[] = false
tcp_behind_blanks (String.◌∷◌ c s) =
    is_space c && elim (after_prefix "tcp" (lstrip s)) [ none ↦ false | some r ↦ at_boundary r ]

abbrev tcp_here : String → Bool
tcp_here s = elim (after_prefix "proto" s) [ none ↦ false | some r ↦ tcp_behind_blanks r ]

-- Behind every line feed.
tcp_later : String → Bool
tcp_later String.[] = false
tcp_later (String.◌∷◌ c s) = (eqb (code c) 10 && tcp_here s) || tcp_later s

-- re.search("(?m)^proto\s+tcp(?:-client)?\b", config); "-client" may be left out of the match.
unfoldable pub is_tcp_config : String → Bool
unfolding tcp_later
is_tcp_config s = tcp_here s || tcp_later s

-- `_node_eligible`; `proxied` says that KUI_OPENVPN_SOCKS_PROXY holds a socks5 URL.
unfoldable pub node_eligible : Bool → Node → Bool
node_eligible proxied n = not proxied || is_tcp_config n.config

-- The country test of `_select_node`.
unfoldable pub is_exit_country : String → Bool
is_exit_country c = let u = upper c in u == "JP" || (u == "KR" || u == "US")

abbrev pub acceptable : Bool → List String → Node → Bool
acceptable proxied excluded_countries n =
    is_exit_country n.country
    && (not (is_member (upper n.country) excluded_countries) && node_eligible proxied n)

-- The loop of `_select_node`: a node that is not acceptable is skipped in the next round.
unfoldable pub select_loop :
    Bool → String → List String → ℕ → ℕ → NodePool → ℕ → List String → Option Node
select_loop proxied country excluded_countries now mono pool zero skipped = none
select_loop proxied country excluded_countries now mono pool (suc fuel) skipped =
    elim (NodePool.select country skipped now mono pool) [
      | none ↦ none
      | some n ↦ elim (acceptable proxied excluded_countries n) [
        | true ↦ some n
        | false ↦ select_loop proxied country excluded_countries now mono pool fuel (n.ip ∷ skipped)
      ]
    ]

-- `_select_node`: each round skips one more node of the pool.
unfoldable pub select_node : Bool → String → List String → ℕ → ℕ → NodePool → Option Node
select_node proxied country excluded now mono pool =
    select_loop proxied country [] now mono pool (suc (length pool.nodes)) excluded

abbrev pub others : String → Dict String → List String
others id d = map (λ e. e.1) (keep (λ e. not (e.0 == id)) d)

abbrev pub entry_ips : String → Manager → List String
entry_ips id m =
    map (λ s. s.entry_ip)
      (keep (λ s. not (s.id == id) && not (is_empty s.entry_ip)) (managed_slots m))

-- `active_entry_ips(excluding=id)`
unfoldable pub active_entry_ips : String → Manager → List String
active_entry_ips id m = others id m.reserved ++ entry_ips id m

abbrev pub preferred : String → String → NodePool → Option Node
preferred ip country pool = if is_empty ip then none else NodePool.get ip country pool

-- The node that `_reserve_node` settles on.
unfoldable pub chosen_node : Bool → List String → String → String → ℕ → ℕ → NodePool → Option Node
chosen_node proxied excluded country preferred_ip now mono pool =
    let selected = select_node proxied country excluded now mono pool in
    elim (preferred preferred_ip country pool) [
      | none ↦ selected
      | some n ↦
          if is_member n.ip excluded || not (node_eligible proxied n) then selected else some n
    ]

-- `_reserve_node`
unfoldable pub reserve_node : Bool → String → String → String → ℕ → ℕ → Exec Manager (Option Node)
reserve_node proxied id country preferred_ip now mono m =
    let free = record m { reserved = Dict.pop id m.reserved } in
    let node =
      chosen_node proxied (active_entry_ips id free) country preferred_ip now mono m.pool in
    elim node [
      | none ↦ (returned none, free)
      | some n ↦ (returned (some n), record free { reserved = Dict.put id n.ip free.reserved })
    ]

-- `_release_node`
unfoldable pub release_node : String → Exec Manager Unit
release_node id m = (returned tt, record m { reserved = Dict.pop id m.reserved })

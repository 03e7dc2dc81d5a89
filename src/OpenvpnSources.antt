-- ===== src/OpenvpnSources.antt =====
-- vps/openvpn_sources.py, `_deduplicate`: one node per address out of what all the providers list.
pub mod Best
use kui_local_multi_exit.Prelude.{
  ℕ, String, Bool, true, false, Option, none, some, List, [], ◌∷◌, if◌then◌else◌,
}
use kui_local_multi_exit.Prelude.Dict
use kui_local_multi_exit.Prelude.Dict.{Dict}
use kui_local_multi_exit.Prelude.Int.{neg}
use kui_local_multi_exit.Prelude.Text.{begins_with}
use kui_local_multi_exit.NodePool.{Priority, lt_priority}
use kui_local_multi_exit.Store.{Node}

-- The rank of the first prefix that the source starts with.
unfoldable pub source_rank : String → ℕ
source_rank source =
    if begins_with "manual" source
    then 0
    else if begins_with "vpnbook" source
    then 1
    else if begins_with "vpngate" source
    then 2
    else 9

-- The tuple that is compared: rank, ping and -score.
unfoldable pub source_priority : Node → Priority
unfolding source_rank
source_priority n = record { tier = source_rank n.source; cost = n.ping; demerit = neg n.score }

unfoldable pub outranks : Node → Node → Bool
outranks n previous = lt_priority (source_priority n) (source_priority previous)

-- The body of the loop.
unfoldable pub add_node : Node → Dict Node → Dict Node
add_node node selected = elim (Dict.get node.ip selected) [
  | none ↦ Dict.put node.ip node selected
  | some previous ↦ if outranks node previous then Dict.put node.ip node selected else selected
]

unfoldable pub add_nodes : List Node → Dict Node → Dict Node
add_nodes [] selected = selected
add_nodes (n ∷ ns) selected = add_nodes ns (add_node n selected)

-- `_deduplicate`, still as the dict whose values it returns.
abbrev pub selected_nodes : List Node → Dict Node
selected_nodes nodes = add_nodes nodes []

unfoldable pub deduplicate : List Node → List Node
deduplicate nodes = Dict.values (selected_nodes nodes)

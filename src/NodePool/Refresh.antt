-- ===== src/NodePool/Refresh.antt =====
-- NodePool.replace of vps/vpngate.py: a fresh snapshot does not improve a node's ping.
use kui_local_multi_exit.Prelude.{String, Option, none, some, List, [], ◌∷◌, ◌==◌, if◌then◌else◌}
use kui_local_multi_exit.Prelude.Dict
use kui_local_multi_exit.Prelude.Dict.{Dict}
use kui_local_multi_exit.Prelude.Int.{◌≤ℤ◌}
use kui_local_multi_exit.NodePool.{NodePool, merged_node}
use kui_local_multi_exit.Store.{Node}

-- The last node of the snapshot with that address.
abbrev pub latest : String → List Node → Option Node → Option Node
latest ip [] found = found
latest ip (n ∷ ns) found = latest ip ns (if n.ip == ip then some n else found)

abbrev merged : Dict Node → String → Option Node → Option Node
merged old ip none = none
merged old ip (some n) = some (merged_node (Dict.get ip old) n)

abbrev pub NotFaster : Option Node → Node → Type 0
NotFaster none n = Unit
NotFaster (some previous) n = previous.ping ≤ℤ n.ping

-- ===== src/Examples/Pools.antt =====
-- Examples at the pool of nodes and the runtime profile.
use kui_local_multi_exit.Prelude.{
  ℕ, ◌+◌, ◌≡◌, ◌≢◌, refl, ap, String, Bool, true, false, not, ◌&&◌, ◌||◌, Option, none, some, List,
  [], ◌∷◌, ◌≤◌, inl, inr, arith, In, eq_iff,
}
use kui_local_multi_exit.Prelude.Dict
use kui_local_multi_exit.Store.{Node}
use kui_local_multi_exit.NodePool.{
  select, is_candidate, comes_first, penalize, get, candidates, priority,
}
use kui_local_multi_exit.NodePool.Selection.{select_best, penalize_cools_down}
use kui_local_multi_exit.ExitManager.Nodes.{
  select_node, acceptable, reserve_node, node_eligible, is_exit_country, select_loop,
}
use kui_local_multi_exit.ExitManager.Nodes.Complete.{select_node_total, IsKeyed}
use kui_local_multi_exit.ExitManager.Nodes.Exclusive.{
  reserve_node_exclusive, Reserved, IsExclusive, select_node-Suitable, Suitable,
}
use kui_local_multi_exit.RuntimeProfile.{RuntimeProfile, MemoryFiles}
use kui_local_multi_exit.OpenvpnSources.{selected_nodes}
use kui_local_multi_exit.OpenvpnSources.Best.{IsBest, deduplicate-IsBest}
use kui_local_multi_exit.Examples.{node_of, near_node, far_node, two_nodes, manager_one}

near_selected : select "JP" [] 1000 1000 two_nodes ≡ some near_node
unfolding select candidates is_candidate priority Dict.get
near_selected = refl

select_best_example :
    In near_node (Dict.values two_nodes.nodes)
    × (is_candidate two_nodes "JP" [] 1000 near_node ≡ true)
    × ((m : Node)
        → In m (Dict.values two_nodes.nodes)
        → is_candidate two_nodes "JP" [] 1000 m ≡ true
        → comes_first two_nodes 1000 m near_node ≡ false)
select_best_example = select_best "JP" [] 1000 1000 two_nodes near_node near_selected

far_candidate : is_candidate two_nodes "JP" ("198.51.100.1" ∷ []) 1000 far_node ≡ true
unfolding is_candidate Dict.get
far_candidate = refl

penalize_cools_down_example :
    (select "JP" [] 1000 2000 (penalize "198.51.100.1" 10 1000 two_nodes)
      ≡ select "JP" ("198.51.100.1" ∷ []) 1000 2000 two_nodes)
    × ((i c : String) → get i c (penalize "198.51.100.1" 10 1000 two_nodes) ≡ get i c two_nodes)
penalize_cools_down_example =
    penalize_cools_down "198.51.100.1" 10 1000 1000 2000 two_nodes "JP" [] (omega arith)

two_nodes-IsKeyed : IsKeyed two_nodes
two_nodes-IsKeyed n m i j e = ground (arith, i, j, eq_iff "198.51.100.1" "198.51.100.2")

far_acceptable : acceptable false [] far_node ≡ true
unfolding node_eligible is_exit_country kui_local_multi_exit.Prelude.Text.upper
far_acceptable = refl

select_node_total_example : select_node false "JP" ("198.51.100.1" ∷ []) 1000 1000 two_nodes ≢ none
select_node_total_example =
    select_node_total false "JP" ("198.51.100.1" ∷ []) 1000 1000 two_nodes far_node
      two_nodes-IsKeyed (inr (inl refl)) far_acceptable far_candidate

one_reservation : IsExclusive manager_one.reserved
unfolding Dict.get
one_reservation i j ip a b = ground (arith, eq_iff "01" i, eq_iff "01" j)

reserve_node_exclusive_example :
    Reserved "02" "ANY" manager_one (reserve_node false "02" "ANY" "" 1000 1000 manager_one)
reserve_node_exclusive_example =
    reserve_node_exclusive false "02" "ANY" "" 1000 1000 manager_one one_reservation

near_from_loop : select_node false "JP" [] 1000 1000 two_nodes ≡ some near_node
unfolding select_node select_loop node_eligible is_exit_country select candidates is_candidate
    priority Dict.get kui_local_multi_exit.Prelude.Text.upper
near_from_loop = refl

select_node-Suitable_example : Suitable false "JP" [] two_nodes near_node
select_node-Suitable_example =
    select_node-Suitable false "JP" 1000 1000 two_nodes [] near_node near_from_loop

abbrev no_files : MemoryFiles
no_files = record { cgroup_v2 = none; cgroup_v1 = none; cgroup_v1_root = none; meminfo = none }

abbrev small_profile : RuntimeProfile
small_profile = record {
  slot_count = 1;
  dial_workers = 2;
  max_connections = 64;
  memory_bytes = none;
  memory_source = "unknown";
}

-- A slow node that the user has added by hand, at the address of the near one.
abbrev own_node : Node
own_node = record (node_of "198.51.100.1" "JP" 300) { source = "manual:own" }

deduplicate-IsBest_example :
    IsBest
      (λ m. In m (near_node ∷ own_node ∷ far_node ∷ []))
      "198.51.100.1"
      (Dict.get "198.51.100.1" (selected_nodes (near_node ∷ own_node ∷ far_node ∷ [])))
deduplicate-IsBest_example =
    deduplicate-IsBest (near_node ∷ own_node ∷ far_node ∷ []) "198.51.100.1"

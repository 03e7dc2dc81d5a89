-- ===== src/ExitManager/Nodes/Complete.antt =====
-- The loop of `_select_node` in vps/exit_manager.py ends, and gives up only where no node will do.
use kui_local_multi_exit.Prelude.{
  ℕ, zero, suc, ◌≤◌, ◌<◌, ◌≡◌, ◌≢◌, refl, ap, String, Bool, true, false, not, none, List, [], ◌∷◌,
  eq_iff, eq_refl, arith, In, keep, length, length-keep-le, Option-cases, Bool-cases, inl, inr,
}
use kui_local_multi_exit.Prelude.Dict
use kui_local_multi_exit.ExitManager.Nodes.{acceptable, select_loop, select_node}
use kui_local_multi_exit.NodePool
use kui_local_multi_exit.NodePool.{NodePool, is_member, is_candidate}
use kui_local_multi_exit.NodePool.Selection.{select_best, select_complete}
use kui_local_multi_exit.Store.{Node}

-- The pool stores a node under its address, so two of its nodes with one address are the same.
abbrev pub IsKeyed : NodePool → Type 0
IsKeyed pool =
    (n m : Node)
    → In n (Dict.values pool.nodes)
    → In m (Dict.values pool.nodes)
    → n.ip ≡ m.ip
    → n ≡ m

abbrev open_nodes : List String → List Node → List Node
open_nodes skipped = keep (λ n. not (is_member n.ip skipped))

open_nodes_le :
    (ip : String) (skipped : List String) (ns : List Node)
    → length (open_nodes (ip ∷ skipped) ns) ≤ length (open_nodes skipped ns)
open_nodes_le ip skipped [] = omega arith
open_nodes_le ip skipped (n ∷ ns) = ground (arith, open_nodes_le ip skipped ns)

open_nodes_lt :
    (c : Node) (skipped : List String) (ns : List Node)
    → In c ns
    → is_member c.ip skipped ≡ false
    → length (open_nodes (c.ip ∷ skipped) ns) < length (open_nodes skipped ns)
open_nodes_lt c skipped [] i h = absurd i
open_nodes_lt c skipped (n ∷ ns) (inl e) h =
    rw (← e, h, eq_refl) (ground (arith, open_nodes_le c.ip skipped ns))
open_nodes_lt c skipped (n ∷ ns) (inr i) h = ground (arith, open_nodes_lt c skipped ns i h)

module _ (proxied : Bool) (country : String) (now mono : ℕ) (pool : NodePool) (keyed : IsKeyed pool)
    (m : Node) (there : In m (Dict.values pool.nodes)) (good : acceptable proxied [] m ≡ true) where
  still_candidate :
      (skipped : List String) (c : Node)
      → is_candidate pool country skipped mono m ≡ true
      → c.ip ≢ m.ip
      → is_candidate pool country (c.ip ∷ skipped) mono m ≡ true
  unfolding is_candidate
  still_candidate skipped c h differs = ground (arith, eq_iff c.ip m.ip)

  unskipped :
      (skipped : List String) (c : Node)
      → is_candidate pool country skipped mono c ≡ true
      → is_member c.ip skipped ≡ false
  unfolding is_candidate
  unskipped skipped c h = ground arith

  select_loop_finds :
      (fuel : ℕ) (skipped : List String)
      → length (open_nodes skipped (Dict.values pool.nodes)) < fuel
      → is_candidate pool country skipped mono m ≡ true
      → select_loop proxied country [] now mono pool fuel skipped ≢ none
  unfolding select_loop
  select_loop_finds zero skipped enough h e = absurd (omega arith)
  select_loop_finds (suc fuel) skipped enough h e =
      elim (Option-cases (NodePool.select country skipped now mono pool)) [
        | inl none_left ↦ select_complete country skipped now mono pool m there h none_left
        | inr (c, found) ↦ elim (Bool-cases (acceptable proxied [] c)) [
          | inl fine ↦ ground (arith, found, fine)
          | inr bad ↦
              let best = select_best country skipped now mono pool c found in
              let free = unskipped skipped c best.1 in
              select_loop_finds fuel (c.ip ∷ skipped)
                (omega (arith, open_nodes_lt c skipped (Dict.values pool.nodes) best.0 free))
                (still_candidate skipped c h (λ same.
                  cc (bad, good, ap (acceptable proxied []) (keyed c m best.0 there same))))
                (ground (arith, found, bad))
        ]
      ]

length-values {ℓ} : {V : Type ℓ} (d : Dict.Dict V) → length (Dict.values d) ≡ length d
length-values [] = refl
length-values (e ∷ d) = ap suc (length-values d)

-- A pool node that is of the country, not excluded, not cooling down and acceptable is enough for
-- `_select_node` to return a node: as many rounds as the pool has nodes, and one more, suffice.
pub select_node_total :
    (proxied : Bool) (country : String) (excluded : List String) (now mono : ℕ) (pool : NodePool)
    → (m : Node) → IsKeyed pool
    → In m (Dict.values pool.nodes)
    → acceptable proxied [] m ≡ true
    → is_candidate pool country excluded mono m ≡ true
    → select_node proxied country excluded now mono pool ≢ none
unfolding select_node
select_node_total proxied country excluded now mono pool m keyed there good h =
    select_loop_finds proxied country now mono pool keyed m there good (suc (length pool.nodes))
      excluded
      (omega (
        arith,
        length-values pool.nodes,
        length-keep-le (λ n. not (is_member n.ip excluded)) (Dict.values pool.nodes),
      ))
      h

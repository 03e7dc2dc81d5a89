-- ===== src/Panel/Hosts/Cascade.antt =====
-- The hosts and their nodes in vps/store.py: ids, and what the deletion of a host takes with it.
use kui_local_multi_exit.Prelude.{
  ℕ, String, ◌==◌, Bool, false, not, Option, none, some, List, [], ◌∷◌, eqb, eqb→eq, keep,
  if◌then◌else◌, ◌≡◌, ◌≢◌, subst, refl, arith, Bool-cases, inl, inr, All,
}
use kui_local_multi_exit.Prelude.Dict.{get-pop}
use kui_local_multi_exit.Panel.Hosts.{Hosts, NodeRow, is_of_host, find_node, delete_vps, get_vps}

-- No two nodes have the same id.
abbrev pub HasDistinct : List NodeRow → Type 0
HasDistinct [] = Unit
HasDistinct (n ∷ ns) = All (λ m. n.id ≢ m.id) ns × HasDistinct ns

-- What is found and kept.
abbrev pub if_kept : (NodeRow → Bool) → Option NodeRow → Option NodeRow
if_kept p none = none
if_kept p (some n) = if p n then some n else none

find_node-absent :
    (p : NodeRow → Bool) (id : ℕ) (ns : List NodeRow)
    → All (λ m. id ≢ m.id) ns
    → find_node id (keep p ns) ≡ none
unfolding find_node
find_node-absent p id [] h = refl
find_node-absent p id (n ∷ ns) h =
    let other : eqb n.id id ≡ false = ground arith in
    let later = find_node-absent p id ns h.1 in
    elim (Bool-cases (p n)) [ inl e ↦ rw (e, other) later | inr e ↦ rw e later ]

find_node-keep :
    (p : NodeRow → Bool) (id : ℕ) (ns : List NodeRow)
    → HasDistinct ns
    → find_node id (keep p ns) ≡ if_kept p (find_node id ns)
unfolding find_node
find_node-keep p id [] h = refl
find_node-keep p id (n ∷ ns) h =
    let later = find_node-keep p id ns h.1 in
    elim (Bool-cases (eqb n.id id)) [
      | inl e ↦
          let absent =
            find_node-absent p id ns (subst (λ k. All (λ m. k ≢ m.id) ns) (eqb→eq n.id id e) h.0) in
          elim (Bool-cases (p n)) [ inl k ↦ rw (k, e, k) refl | inr k ↦ rw (k, e, k) absent ]
      | inr e ↦ elim (Bool-cases (p n)) [ inl k ↦ rw (k, e) later | inr k ↦ rw (k, e) later ]
    ]

-- A host and its nodes are gone behind its deletion, and nothing else is.
abbrev pub Cascades : String → Hosts → Type 0
Cascades ip s =
    ((other : String)
      → get_vps other (delete_vps ip s).1 ≡ (if ip == other then none else get_vps other s))
    × ((id : ℕ)
        → find_node id (delete_vps ip s).1.nodes
          ≡ if_kept (λ n. not (is_of_host ip n)) (find_node id s.nodes))

pub delete_vps-Cascades : (ip : String) (s : Hosts) → HasDistinct s.nodes → Cascades ip s
unfolding delete_vps
delete_vps-Cascades ip s h = (
  λ other. get-pop ip other s.vps,
  λ id. find_node-keep (λ n. not (is_of_host ip n)) id s.nodes h,
)

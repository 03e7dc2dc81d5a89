-- ===== src/Panel/Hosts/Numbering.antt =====
-- The hosts and their nodes in vps/store.py: the ids of the nodes.
use kui_local_multi_exit.Prelude.{
  ℕ, suc, max, ◌≤◌, String, Bool, true, false, Option, none, List, [], ◌∷◌, ◌++◌, eqb, keep, map,
  ◌≡◌, ◌≢◌, refl, arith, Bool-cases, Option-cases, inl, inr, All,
}
use kui_local_multi_exit.Prelude.Dict
use kui_local_multi_exit.Prelude.Int.{pos}
use kui_local_multi_exit.Json.{num}
use kui_local_multi_exit.Panel.{Row, has_unknown, is_none, write_fields, value_failure, is_some}
use kui_local_multi_exit.Panel.Hosts.{
  Hosts, NodeRow, find_node, add_vps, update_vps, delete_vps, add_node, update_node, delete_node,
  get_vps, vps_values, node_values, link_fields, egress_fields, node_fields, update_columns,
  update_vps_rows, node_id_of,
}
use kui_local_multi_exit.Panel.Hosts.Cascade.{HasDistinct, Cascades, delete_vps-Cascades}

-- No two nodes have the same id, and no id is beyond the counter.
abbrev pub IsNumbered : Hosts → Type 0
IsNumbered s = HasDistinct s.nodes × All (λ n. n.id ≤ s.last_id) s.nodes

All-keep :
    (P : NodeRow → Type 0) (p : NodeRow → Bool) (ns : List NodeRow) → All P ns → All P (keep p ns)
All-keep P p [] h = tt
All-keep P p (n ∷ ns) h = ground (arith, All-keep P p ns)

HasDistinct-keep :
    (p : NodeRow → Bool) (ns : List NodeRow) → HasDistinct ns → HasDistinct (keep p ns)
HasDistinct-keep p [] h = tt
HasDistinct-keep p (n ∷ ns) h = elim (Bool-cases (p n)) [
  | inl e ↦ rw e (All-keep (λ m. n.id ≢ m.id) p ns h.0, HasDistinct-keep p ns h.1)
  | inr e ↦ rw e (HasDistinct-keep p ns h.1)
]

kept-IsNumbered :
    (p : NodeRow → Bool) (s : Hosts)
    → IsNumbered s
    → HasDistinct (keep p s.nodes) × All (λ n. n.id ≤ s.last_id) (keep p s.nodes)
kept-IsNumbered p s h = (HasDistinct-keep p s.nodes h.0, All-keep _ p s.nodes h.1)

-- A rewriting of the rows that leaves the ids.
module _ (f : NodeRow → NodeRow) (same : (n : NodeRow) → (f n).id ≡ n.id) where
  All-map :
      (P : ℕ → Type 0) (ns : List NodeRow) → All (λ n. P n.id) ns → All (λ n. P n.id) (map f ns)
  All-map P [] h = tt
  All-map P (n ∷ ns) h = (rw (same n) h.0, All-map P ns h.1)

  HasDistinct-map : (ns : List NodeRow) → HasDistinct ns → HasDistinct (map f ns)
  HasDistinct-map [] h = tt
  HasDistinct-map (n ∷ ns) h =
      (rw (same n) (All-map (λ k. n.id ≢ k) ns h.0), HasDistinct-map ns h.1)

update_columns-id : (id : ℕ) (fields : Row) (n : NodeRow) → (update_columns id fields n).id ≡ n.id
update_columns-id id fields n = elim (Bool-cases (eqb n.id id)) [
  | inl e ↦ rw e refl
  | inr e ↦ rw e refl
]

absent-All : (id : ℕ) (ns : List NodeRow) → find_node id ns ≡ none → All (λ m. m.id ≢ id) ns
unfolding find_node
absent-All id [] h = tt
absent-All id (n ∷ ns) h = ground (arith, absent-All id ns)

All-append :
    (P : NodeRow → Type 0) (ns : List NodeRow) (x : NodeRow)
    → All P ns
    → P x
    → All P (ns ++ (x ∷ []))
All-append P [] x h p = (p, tt)
All-append P (n ∷ ns) x h p = (h.0, All-append P ns x h.1 p)

HasDistinct-append :
    (ns : List NodeRow) (x : NodeRow)
    → HasDistinct ns
    → All (λ m. m.id ≢ x.id) ns
    → HasDistinct (ns ++ (x ∷ []))
HasDistinct-append [] x h a = (tt, tt)
HasDistinct-append (n ∷ ns) x h a =
    (All-append (λ m. n.id ≢ m.id) ns x h.0 a.0, HasDistinct-append ns x h.1 a.1)

raise_bound :
    (bound more : ℕ) (ns : List NodeRow)
    → All (λ n. n.id ≤ bound) ns
    → All (λ n. n.id ≤ max bound more) ns
raise_bound bound more [] h = tt
raise_bound bound more (n ∷ ns) h = (omega arith, raise_bound bound more ns h.1)

within_bound :
    (bound : ℕ) (ns : List NodeRow) → All (λ n. n.id ≤ bound) ns → find_node (suc bound) ns ≡ none
unfolding find_node
within_bound bound [] h = refl
within_bound bound (n ∷ ns) h =
    let other : eqb n.id (suc bound) ≡ false = ground arith in rw other (within_bound bound ns h.1)

-- A request to the two tables.
pub data Request : Type 0 where
  new_host : String → String → String → Row → ℕ → Request
  change_host : String → Row → Request
  drop_host : String → Request
  new_node : Option ℕ → Row → Row → ℕ → Request
  change_node : ℕ → Row → Request
  drop_node : ℕ → Request

abbrev pub perform : Request → Hosts → Hosts
perform (new_host ip name os fields now) s = (add_vps ip name os fields now s).1
perform (change_host ip fields) s = (update_vps ip fields s).1
perform (drop_host ip) s = (delete_vps ip s).1
perform (new_node id base fields now) s = (add_node id base fields now s).1
perform (change_node id fields) s = (update_node id fields s).1
perform (drop_node id) s = (delete_node id s).1

abbrev pub perform_all : List Request → Hosts → Hosts
perform_all [] s = s
perform_all (q ∷ qs) s = perform_all qs (perform q s)

add_vps-IsNumbered :
    (ip name os : String) (fields : Row) (now : ℕ) (s : Hosts)
    → IsNumbered s
    → IsNumbered (add_vps ip name os fields now s).1
unfolding add_vps
add_vps-IsNumbered ip name os fields now s h =
    elim (Bool-cases (has_unknown egress_fields fields)) [
      | inl e ↦ rw e h
      | inr e ↦ elim (Option-cases (value_failure true (vps_values name os fields now))) [
        | inr (x, f) ↦ rw (e, f) h
        | inl f ↦ elim (Option-cases (get_vps ip s)) [
          | inl o ↦ rw (e, f, o) h
          | inr (r, o) ↦ rw (e, f, o) h
        ]
      ]
    ]

update_vps-IsNumbered :
    (ip : String) (fields : Row) (s : Hosts) → IsNumbered s → IsNumbered (update_vps ip fields s).1
unfolding update_vps
update_vps-IsNumbered ip fields s h =
    elim (Bool-cases (has_unknown ("name" ∷ "os" ∷ egress_fields) fields)) [
      | inl e ↦ rw e h
      | inr e ↦ elim (Bool-cases (is_none fields)) [
        | inl n ↦ rw (e, n) h
        | inr n ↦ elim (Option-cases (value_failure (is_some (get_vps ip s)) fields)) [
          | inr (x, f) ↦ rw (e, n, f) h
          | inl f ↦
              elim (Option-cases (Dict.get ip (update_vps_rows ip (write_fields fields) s.vps))) [
                | inl o ↦ rw (e, n, f, o) h
                | inr (r, o) ↦ rw (e, n, f, o) h
              ]
        ]
      ]
    ]

inserted-IsNumbered :
    (id : ℕ) (row : Row) (s : Hosts)
    → find_node id s.nodes ≡ none
    → IsNumbered s
    → IsNumbered (record s {
      nodes = s.nodes ++ (record { id = id; columns = row } ∷ []);
      last_id = max s.last_id id;
    })
inserted-IsNumbered id row s absent h = (
  HasDistinct-append s.nodes _ h.0 (absent-All id s.nodes absent),
  All-append _ s.nodes _ (raise_bound s.last_id id s.nodes h.1) (omega arith),
)

add_node-IsNumbered :
    (node_id : Option ℕ) (base fields : Row) (now : ℕ) (s : Hosts)
    → IsNumbered s
    → IsNumbered (add_node node_id base fields now s).1
unfolding add_node
add_node-IsNumbered node_id base fields now s h =
    elim (Bool-cases (has_unknown link_fields fields)) [
      | inl e ↦ rw e h
      | inr e ↦
          elim (Option-cases (
            value_failure true
              (("id", num (pos (node_id_of node_id s))) ∷ node_values base fields now))) [
                | inr (x, f) ↦ rw (e, f) h
                | inl f ↦ elim (Option-cases (find_node (node_id_of node_id s) s.nodes)) [
                  | inl o ↦ rw (e, f, o) (inserted-IsNumbered (node_id_of node_id s) _ s o h)
                  | inr (n, o) ↦ rw (e, f, o) h
                ]
              ]
    ]

update_node-IsNumbered :
    (id : ℕ) (fields : Row) (s : Hosts) → IsNumbered s → IsNumbered (update_node id fields s).1
unfolding update_node
update_node-IsNumbered id fields s h =
    let f = update_columns id fields in
    let same = update_columns-id id fields in
    let moved : IsNumbered (record s { nodes = map f s.nodes }) =
      (HasDistinct-map f same s.nodes h.0, All-map f same (λ k. k ≤ s.last_id) s.nodes h.1) in
    elim (Bool-cases (has_unknown node_fields fields)) [
      | inl e ↦ rw e h
      | inr e ↦ elim (Bool-cases (is_none fields)) [
        | inl n ↦ rw (e, n) h
        | inr n ↦ elim (Option-cases (value_failure (is_some (find_node id s.nodes)) fields)) [
          | inr (x, g) ↦ rw (e, n, g) h
          | inl g ↦ elim (Option-cases (find_node id (map f s.nodes))) [
            | inl o ↦ rw (e, n, g, o) moved
            | inr (r, o) ↦ rw (e, n, g, o) moved
          ]
        ]
      ]
    ]

perform-IsNumbered : (q : Request) (s : Hosts) → IsNumbered s → IsNumbered (perform q s)
unfolding delete_vps delete_node
perform-IsNumbered (new_host ip name os fields now) s h =
    add_vps-IsNumbered ip name os fields now s h
perform-IsNumbered (change_host ip fields) s h = update_vps-IsNumbered ip fields s h
perform-IsNumbered (drop_host ip) s h = kept-IsNumbered _ s h
perform-IsNumbered (new_node id base fields now) s h = add_node-IsNumbered id base fields now s h
perform-IsNumbered (change_node id fields) s h = update_node-IsNumbered id fields s h
perform-IsNumbered (drop_node id) s h = kept-IsNumbered _ s h

perform_all-IsNumbered :
    (qs : List Request) (s : Hosts) → IsNumbered s → IsNumbered (perform_all qs s)
perform_all-IsNumbered [] s h = h
perform_all-IsNumbered (q ∷ qs) s h =
    perform_all-IsNumbered qs (perform q s) (perform-IsNumbered q s h)

abbrev pub no_hosts : Hosts
no_hosts = record { vps = []; nodes = []; last_id = 0 }

-- Whatever has been asked of the hosts and the nodes, in whatever order, from empty tables on: no two
-- nodes have the same id and no id is beyond the counter, and the deletion of a host takes the host and
-- its nodes with it and nothing else, whatever hosts and ids are looked up afterwards.
pub reached_hosts-IsNumbered :
    (qs : List Request) (ip : String)
    → IsNumbered (perform_all qs no_hosts) × Cascades ip (perform_all qs no_hosts)
reached_hosts-IsNumbered qs ip =
    let h = perform_all-IsNumbered qs no_hosts (tt, tt) in
    (h, delete_vps-Cascades ip (perform_all qs no_hosts) h.0)

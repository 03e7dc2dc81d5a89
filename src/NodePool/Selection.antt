-- ===== src/NodePool/Selection.antt =====
-- What NodePool.select and NodePool.get of vps/vpngate.py promise to a slot that dials.
use kui_local_multi_exit.Prelude.{
  ℕ, ◌+◌, ◌<◌, ◌≡◌, ◌≢◌, refl, String, true, false, none, some, List, [], ◌∷◌, ◌==◌, ap, eq_iff,
  arith, subst, All-In, In, keep, keep-In, In-keep,
}
use kui_local_multi_exit.Prelude.Dict
use kui_local_multi_exit.Prelude.Dict.{get-put}
use kui_local_multi_exit.Prelude.Sort.{sort-Least, sort_agree, head, head-In, sort-empty}
use kui_local_multi_exit.NodePool.{
  NodePool, cooldown, penalize, comes_first, priority, penalty_of, is_candidate, candidates, select,
  get, or_zero,
}
use kui_local_multi_exit.NodePool.Order.{
  comes_first_irrefl, comes_first_asym, comes_first_neg_trans,
}
use kui_local_multi_exit.Store.{Node}

module _ (country : String) (excluded : List String) (now mono : ℕ) (p : NodePool) where
  select-In :
      (n : Node)
      → select country excluded now mono p ≡ some n
      → In n (candidates p country excluded mono)
  unfolding select
  select-In n e =
      head-In (comes_first p now) (comes_first_irrefl p now) (comes_first_neg_trans p now)
        (comes_first_asym p now) (candidates p country excluded mono) n e

  -- A selected node is in the pool and meets the conditions of `select`, and no node of the pool
  -- that meets them comes before it.
  pub select_best :
      (n : Node)
      → select country excluded now mono p ≡ some n
      → In n (Dict.values p.nodes)
        × (is_candidate p country excluded mono n ≡ true)
        × ((m : Node)
            → In m (Dict.values p.nodes)
            → is_candidate p country excluded mono m ≡ true
            → comes_first p now m n ≡ false)
  unfolding select
  select_best n e =
      let member =
        keep-In (is_candidate p country excluded mono) (Dict.values p.nodes) n
          (unfold candidates in select-In n e) in
      (
        member.0,
        member.1,
        λ m i c.
            All-In _ (candidates p country excluded mono)
              (sort-Least (comes_first p now) (comes_first_irrefl p now)
                (comes_first_neg_trans p now) (comes_first_asym p now)
                (candidates p country excluded mono) n e)
              m
              (unfold candidates in
                In-keep (is_candidate p country excluded mono) (Dict.values p.nodes) m i c),
      )

  -- `select` gives up only when no node of the pool meets its conditions.
  pub select_complete :
      (m : Node)
      → In m (Dict.values p.nodes)
      → is_candidate p country excluded mono m ≡ true
      → select country excluded now mono p ≢ none
  unfolding select
  select_complete m i c e =
      let none_left = sort-empty (comes_first p now) (candidates p country excluded mono) e in
      subst (In m) none_left (
        unfold candidates in
        In-keep (is_candidate p country excluded mono) (Dict.values p.nodes) m i c)

module _ (ip : String) (amount mono now later : ℕ) (p : NodePool) (country : String)
    (excluded : List String) (soon : later < mono + cooldown) where
  abbrev penalized : NodePool
  penalized = penalize ip amount mono p

  cooled :
      (n : Node)
      → is_candidate penalized country excluded later n
        ≡ is_candidate p country (ip ∷ excluded) later n
  unfolding is_candidate penalize
  cooled n =
      ground
        (arith, get-put ip n.ip (mono + cooldown) p.retry_after, eq_iff n.ip ip, eq_iff ip n.ip)

  not_penalized :
      (n : Node) → is_candidate p country (ip ∷ excluded) later n ≡ true → (ip == n.ip) ≡ false
  unfolding is_candidate
  not_penalized n c = ground (arith, eq_iff n.ip ip, eq_iff ip n.ip)

  same_penalty : (n : Node) → (ip == n.ip) ≡ false → penalty_of penalized n ≡ penalty_of p n
  unfolding penalize
  same_penalty n e =
      rw (get-put ip n.ip (or_zero (Dict.get ip p.penalties) + amount) p.penalties, e) refl

  same_priority : (n : Node) → (ip == n.ip) ≡ false → priority penalized now n ≡ priority p now n
  unfolding priority
  same_priority n e = rw (same_penalty n e) refl

  same_order :
      (a b : Node)
      → (ip == a.ip) ≡ false
      → (ip == b.ip) ≡ false
      → comes_first penalized now a b ≡ comes_first p now a b
  same_order a b e f = rw (same_priority a e, same_priority b f) refl

  keep_agree :
      (ns : List Node)
      → keep (is_candidate penalized country excluded later) ns
        ≡ keep (is_candidate p country (ip ∷ excluded) later) ns
  keep_agree [] = refl
  keep_agree (n ∷ ns) = rw (cooled n, keep_agree ns) refl

  abbrev left_over : List Node
  left_over = keep (is_candidate p country (ip ∷ excluded) later) (Dict.values p.nodes)

  other_address : (n : Node) → In n left_over → (ip == n.ip) ≡ false
  other_address n m =
      not_penalized n
        (keep-In (is_candidate p country (ip ∷ excluded) later) (Dict.values p.nodes) n m).1

  same_choice :
      select country excluded now later penalized ≡ select country (ip ∷ excluded) now later p
  unfolding select candidates penalize
  same_choice = rw (keep_agree (Dict.values p.nodes)) (
      ap head (
        sort_agree (comes_first penalized now) (comes_first p now) left_over
          (λ a b m n. same_order a b (other_address a m) (other_address b n))))

  -- For two minutes after a penalty, `select` does exactly what it would have done without the
  -- penalty and with the address excluded, whatever the country and the other exclusions; `get`
  -- goes on as if there had been none.
  pub penalize_cools_down :
      (select country excluded now later penalized ≡ select country (ip ∷ excluded) now later p)
      × ((i c : String) → get i c penalized ≡ get i c p)
  unfolding penalize get
  penalize_cools_down = (same_choice, λ i c. refl)

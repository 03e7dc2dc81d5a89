-- ===== src/ExitManager/Nodes/Exclusive.antt =====
-- `_select_node` and `_reserve_node` of vps/exit_manager.py: the node is free, and of the country.
use kui_local_multi_exit.Prelude.{
  ℕ, zero, suc, ◌≡◌, ◌≢◌, refl, sym, ◌∙◌, subst, String, Bool, true, false, not, ◌||◌, Option, none,
  some, List, [], ◌∷◌, ◌++◌, ◌==◌, eq_iff, eq_refl, arith, In, length, Option-cases, Bool-cases,
  inl, inr,
}
use kui_local_multi_exit.Prelude.Dict
use kui_local_multi_exit.Prelude.Dict.{Dict, get-put, get-pop}
use kui_local_multi_exit.Prelude.Exec.{Outcome, returned}
use kui_local_multi_exit.ExitManager.{Manager, managed_slots, is_managed_slot}
use kui_local_multi_exit.ExitManager.Nodes.{
  acceptable, select_loop, select_node, chosen_node, active_entry_ips, reserve_node, node_eligible,
  preferred, others, entry_ips,
}
use kui_local_multi_exit.NodePool
use kui_local_multi_exit.NodePool.{NodePool, is_member, is_candidate, in_country}
use kui_local_multi_exit.NodePool.Selection.{select_best}
use kui_local_multi_exit.Store.{Node}

-- What `_select_node` guarantees of its node: it is a node of the pool that is not excluded, of the
-- slot's country, in one of the three countries, and usable with the configured proxy.
pub record Suitable (proxied : Bool) (country : String) (excluded : List String) (pool : NodePool)
    (n : Node) : Type 0 where
  pub member : In n (Dict.values pool.nodes)
  pub free : is_member n.ip excluded ≡ false
  pub of_country : in_country country n ≡ true
  pub accepted : acceptable proxied [] n ≡ true

candidate_parts :
    (pool : NodePool) (country : String) (skipped : List String) (mono : ℕ) (n : Node)
    → is_candidate pool country skipped mono n ≡ true
    → (is_member n.ip skipped ≡ false) × (in_country country n ≡ true)
unfolding is_candidate
candidate_parts pool country skipped mono n h = ground arith

module _ (proxied : Bool) (country : String) (now mono : ℕ) (pool : NodePool) where
  select_loop-Suitable :
      (fuel : ℕ) (excluded skipped : List String)
      → ((ip : String) → is_member ip skipped ≡ false → is_member ip excluded ≡ false)
      → (n : Node) → select_loop proxied country [] now mono pool fuel skipped ≡ some n
      → Suitable proxied country excluded pool n
  unfolding select_loop
  select_loop-Suitable zero excluded skipped sub n e = absurd (cc)
  select_loop-Suitable (suc fuel) excluded skipped sub n e =
      elim (Option-cases (NodePool.select country skipped now mono pool)) [
        | inl none_left ↦ absurd (ground (arith, none_left))
        | inr (c, found) ↦ elim (Bool-cases (acceptable proxied [] c)) [
          | inl good ↦
              let best = select_best country skipped now mono pool c found in
              let parts = candidate_parts pool country skipped mono c best.1 in
              subst (Suitable proxied country excluded pool) (ground (arith, found, good)) (record {
                member = best.0;
                free = sub c.ip parts.0;
                of_country = parts.1;
                accepted = good;
              })
          | inr bad ↦
              select_loop-Suitable fuel excluded (c.ip ∷ skipped) (λ ip h. sub ip (ground arith)) n
                (ground (arith, found, bad))
        ]
      ]

  -- A node that `_select_node` returns is a node of the pool that is not excluded, of the slot's
  -- country, in one of the three countries, and usable with the configured proxy.
  pub select_node-Suitable :
      (excluded : List String) (n : Node)
      → select_node proxied country excluded now mono pool ≡ some n
      → Suitable proxied country excluded pool n
  unfolding select_node
  select_node-Suitable excluded n e =
      select_loop-Suitable (suc (length pool.nodes)) excluded excluded (λ ip h. h) n e

get_country :
    (ip country : String) (pool : NodePool) (n : Node)
    → NodePool.get ip country pool ≡ some n
    → in_country country n ≡ true
unfolding NodePool.get
get_country ip country pool n e = ground arith

preferred_country :
    (ip country : String) (pool : NodePool) (n : Node)
    → preferred ip country pool ≡ some n
    → in_country country n ≡ true
preferred_country ip country pool n e = ground (arith, get_country ip country pool n)

-- Whether the node is the preferred one or a selected one, it is not excluded, and of the country.
pub chosen_node_free :
    (proxied : Bool) (excluded : List String) (country ip : String) (now mono : ℕ) (pool : NodePool)
    → (n : Node) → chosen_node proxied excluded country ip now mono pool ≡ some n
    → (is_member n.ip excluded ≡ false) × (in_country country n ≡ true)
unfolding chosen_node
chosen_node_free proxied excluded country ip now mono pool n e =
    elim (Option-cases (preferred ip country pool)) [
      | inl none_there ↦ from_select (ground (arith, none_there))
      | inr (c, there) ↦
          elim (Bool-cases (is_member c.ip excluded || not (node_eligible proxied c))) [
            | inl bad ↦ from_select (ground (arith, there, bad))
            | inr good ↦
                let same : c ≡ n = ground (arith, there, good) in
                (
                  subst (λ x. is_member x.ip excluded ≡ false) same (ground (arith, good)),
                  subst (λ x. in_country country x ≡ true) same
                      (preferred_country ip country pool c there),
                )
          ]
    ]
  where
    from_select :
        select_node proxied country excluded now mono pool ≡ some n
        → (is_member n.ip excluded ≡ false) × (in_country country n ≡ true)
    from_select h =
        let s = select_node-Suitable proxied country now mono pool excluded n h in
        (s.free, s.of_country)

-- No two slots hold one address.
abbrev pub IsExclusive : Dict String → Type 0
IsExclusive d = (i j ip : String) → Dict.get i d ≡ some ip → Dict.get j d ≡ some ip → i ≡ j

is_member-append :
    (ip : String) (xs ys : List String)
    → is_member ip (xs ++ ys) ≡ (is_member ip xs || is_member ip ys)
is_member-append ip [] ys = refl
is_member-append ip (x ∷ xs) ys = ground (arith, is_member-append ip xs ys)

others_member :
    (id j ip : String) (d : Dict String)
    → Dict.get j d ≡ some ip
    → j ≢ id
    → is_member ip (others id d) ≡ true
unfolding Dict.get
others_member id j ip [] e h = absurd (cc)
others_member id j ip ((k, v) ∷ d) e h =
    ground (arith, eq_iff k j, eq_iff k id, eq_iff v ip, others_member id j ip d)

module _ (id ip : String) (d : Dict String) (rest : List String) (exclusive : IsExclusive d)
    (free : is_member ip (others id d ++ rest) ≡ false) where
  not_held : (j : String) → Dict.get j d ≡ some ip → j ≢ id → ⊥
  not_held j e h =
      ground (arith, others_member id j ip d e h, is_member-append ip (others id d) rest)

  put-IsExclusive : IsExclusive (Dict.put id ip d)
  put-IsExclusive i j x a b = elim (Bool-cases (id == i)) [
    | inl hi ↦ elim (Bool-cases (id == j)) [
      | inl hj ↦ sym ((eq_iff id i).0 hi) ∙ (eq_iff id j).0 hj
      | inr hj ↦ absurd (not_held j (theirs hi hj) (λ e. cc (hj, (eq_iff id j).1 (sym e))))
    ]
    | inr hi ↦ elim (Bool-cases (id == j)) [
      | inl hj ↦ absurd (not_held i (ours hi hj) (λ e. cc (hi, (eq_iff id i).1 (sym e))))
      | inr hj ↦
          exclusive i j x (ground (arith, get-put id i ip d)) (ground (arith, get-put id j ip d))
    ]
  ]
    where
      theirs : id == i ≡ true → id == j ≡ false → Dict.get j d ≡ some ip
      theirs hi hj = ground (arith, get-put id i ip d, get-put id j ip d)

      ours : id == i ≡ false → id == j ≡ true → Dict.get i d ≡ some ip
      ours hi hj = ground (arith, get-put id i ip d, get-put id j ip d)

pop-IsExclusive : (id : String) (d : Dict String) → IsExclusive d → IsExclusive (Dict.pop id d)
pop-IsExclusive id d exclusive i j x a b =
    exclusive i j x (ground (arith, get-pop id i d)) (ground (arith, get-pop id j d))

-- What is said of the outcome of a reservation for the slot `id`.
pub record Reserved (id country : String) (m : Manager) (r : Outcome (Option Node) × Manager)
    : Type 0 where
  pub exclusive : IsExclusive r.1.reserved
  pub entered : (n : Node) → r.0 ≡ returned (some n) → Dict.get id r.1.reserved ≡ some n.ip
  pub unreserved :
      (n : Node)
      → r.0 ≡ returned (some n)
      → is_member n.ip (others id (Dict.pop id m.reserved)) ≡ false
  pub unused : (n : Node) → r.0 ≡ returned (some n) → is_member n.ip (entry_ips id m) ≡ false
  pub of_country : (n : Node) → r.0 ≡ returned (some n) → in_country country n ≡ true

same_node :
    (c n : Node) → ◌≡◌ {A = Outcome (Option Node)} (returned (some c)) (returned (some n)) → c ≡ n
same_node c n e = cc

module _ (id country : String) (m : Manager) (exclusive : IsExclusive m.reserved) where
  abbrev free_ips : List String
  free_ips = others id (Dict.pop id m.reserved) ++ entry_ips id m

  reserved_outcome :
      (o : Option Node)
      → ((n : Node)
          → o ≡ some n
          → (is_member n.ip free_ips ≡ false) × (in_country country n ≡ true))
      → Reserved id country m (elim o [
        | none ↦ (returned none, record m { reserved = Dict.pop id m.reserved })
        | some n ↦
            (returned (some n), record m { reserved = Dict.put id n.ip (Dict.pop id m.reserved) })
      ])
  reserved_outcome none facts = record {
    exclusive = pop-IsExclusive id m.reserved exclusive;
    entered = λ n e. cc;
    unreserved = λ n e. cc;
    unused = λ n e. cc;
    of_country = λ n e. cc;
  }
  reserved_outcome (some c) facts =
      let held = others id (Dict.pop id m.reserved) in
      let (free, country_ok) = facts c refl in
      let parts = is_member-append c.ip held (entry_ips id m) in
      record {
        exclusive =
            put-IsExclusive id c.ip (Dict.pop id m.reserved) (entry_ips id m)
              (pop-IsExclusive id m.reserved exclusive) free;
        entered = λ n e. ground (arith, get-put id id c.ip (Dict.pop id m.reserved), eq_refl id);
        unreserved = λ n e.
            subst {A = Node} (λ x. is_member x.ip held ≡ false) (same_node c n e)
              (ground (arith, parts));
        unused = λ n e.
            subst {A = Node} (λ x. is_member x.ip (entry_ips id m) ≡ false) (same_node c n e)
              (ground (arith, parts));
        of_country =
            λ n e. subst {A = Node} (λ x. in_country country x ≡ true) (same_node c n e) country_ok;
      }

-- `_reserve_node` keeps the reservations exclusive. A node that it returns is entered under its
-- address, is of the slot's country, and is neither reserved by another slot nor the entry address
-- of another managed slot.
pub reserve_node_exclusive :
    (proxied : Bool) (id country ip : String) (now mono : ℕ) (m : Manager)
    → IsExclusive m.reserved
    → Reserved id country m (reserve_node proxied id country ip now mono m)
unfolding reserve_node active_entry_ips managed_slots is_managed_slot
reserve_node_exclusive proxied id country ip now mono m exclusive =
    reserved_outcome id country m exclusive
      (chosen_node proxied (free_ips id country m exclusive) country ip now mono m.pool)
      (chosen_node_free proxied (free_ips id country m exclusive) country ip now mono m.pool)

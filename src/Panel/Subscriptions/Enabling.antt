-- ===== src/Panel/Subscriptions/Enabling.antt =====
-- Subscriptions in vps/store.py: what switching one on or off does to the nodes that are offered.
use kui_local_multi_exit.Prelude.{
  ℕ, Bool, true, false, not, ◌&&◌, some, List, [], ◌∷◌, any, eqb, eqb→eq, keep, map, if◌then◌else◌,
  ◌≡◌, ◌∙◌, refl, sym, ap, arith, Bool-cases, inl, inr,
}
use kui_local_multi_exit.Prelude.Dict
use kui_local_multi_exit.Prelude.Int.{pos}
use kui_local_multi_exit.Prelude.Exec.{returned}
use kui_local_multi_exit.Json.{Json, bool, num, truthy}
use kui_local_multi_exit.Panel.{Row, has_unknown, value_failure}
use kui_local_multi_exit.Panel.Subscriptions.{
  Sub, SubNode, Feeds, Summary, is_on, is_of_sub, sub_is_on, update_sub, switch_node, find_sub,
  get_thirdparty, list_enabled_thirdparty_nodes, update_thirdparty,
}

abbrev pub switch : Bool → Row
switch b = ("enable", bool b) ∷ []

-- A node as it is stored when its subscription has been switched on.
abbrev pub switched_on : SubNode → SubNode
switched_on n = record n { enable = num (pos 1) }

-- Another subscription is on or off as it was.
sub_is_on-other :
    (id other : ℕ) (fields : Row) (subs : List Sub)
    → eqb other id ≡ false
    → sub_is_on other (map (update_sub id fields) subs) ≡ sub_is_on other subs
sub_is_on-other id other fields [] h = refl
sub_is_on-other id other fields (u ∷ subs) h =
    let later = sub_is_on-other id other fields subs h in
    elim (Bool-cases (eqb u.id id)) [
      | inl e ↦ let apart : eqb u.id other ≡ false = ground arith in rw (e, apart) later
      | inr e ↦ rw (e, later) refl
    ]

switched_off :
    (id : ℕ) (subs : List Sub) → sub_is_on id (map (update_sub id (switch false)) subs) ≡ false
unfolding Dict.get
switched_off id [] = refl
switched_off id (u ∷ subs) =
    let later = switched_off id subs in
    elim (Bool-cases (eqb u.id id)) [ inl e ↦ rw (e, e) later | inr e ↦ rw (e, e) later ]

switched_to_on :
    (id : ℕ) (subs : List Sub)
    → any (λ u. eqb u.id id) subs ≡ true
    → sub_is_on id (map (update_sub id (switch true)) subs) ≡ true
unfolding Dict.get
switched_to_on id [] h = absurd (cc)
switched_to_on id (u ∷ subs) h = elim (Bool-cases (eqb u.id id)) [
  | inl e ↦ rw (e, e) refl
  | inr e ↦ rw (e, e) (switched_to_on id subs (rw e at h))
]

-- The nodes that are offered, from the rows and from a test of the subscriptions.
abbrev offered : (ℕ → Bool) → List SubNode → List SubNode
offered on nodes = keep (λ n. is_on n.enable && on n.subscription_id) nodes

offered-same :
    (on on' : ℕ → Bool) (nodes : List SubNode)
    → ((k : ℕ) → on k ≡ on' k)
    → offered on nodes ≡ offered on' nodes
offered-same on on' [] h = refl
offered-same on on' (n ∷ nodes) h = rw (h n.subscription_id, offered-same on on' nodes h) refl

module _ (p : SubNode → Bool) (c : Bool) (x : SubNode) (xs : List SubNode) where
  keep-dropped : p x ≡ false → keep p (if c then x ∷ xs else xs) ≡ keep p xs
  keep-dropped h = ground (arith)

  keep-kept :
      p x ≡ true → keep p (if c then x ∷ xs else xs) ≡ (if c then x ∷ keep p xs else keep p xs)
  keep-kept h = ground (arith)

abbrev of_others : ℕ → SubNode → Bool
of_others id n = not (is_of_sub id n)

module _ (id : ℕ) (v : Json) where
  -- The other subscriptions' nodes are offered as before.
  offered-others :
      (on on' : ℕ → Bool) (nodes : List SubNode)
      → ((k : ℕ) → eqb k id ≡ false → on k ≡ on' k)
      → keep (of_others id) (offered on (map (switch_node id v) nodes))
        ≡ keep (of_others id) (offered on' nodes)
  offered-others on on' [] same = refl
  offered-others on on' (n ∷ nodes) same =
      let later = offered-others on on' nodes same in
      elim (Bool-cases (is_of_sub id n)) [
        | inl e ↦
            let mine : not (is_of_sub id n) ≡ false = ground arith in
            rw e (
              keep-dropped (of_others id) _ _ (offered on (map (switch_node id v) nodes)) mine
              ∙ later
              ∙ sym (keep-dropped (of_others id) _ n (offered on' nodes) mine))
        | inr e ↦
            let other : not (is_of_sub id n) ≡ true = ground arith in
            let agree = same n.subscription_id e in
            rw e (
              keep-kept (of_others id) _ n (offered on (map (switch_node id v) nodes)) other
              ∙ rw (later, agree) refl
              ∙ sym (keep-kept (of_others id) _ n (offered on' nodes) other))
      ]

  -- All nodes of the subscription are offered, or none.
  offered-own :
      (on : ℕ → Bool) (nodes : List SubNode)
      → keep (is_of_sub id) (offered on (map (switch_node id v) nodes))
        ≡ (if truthy v && on id then map switched_on (keep (is_of_sub id) nodes) else [])
  offered-own on [] = ground arith
  offered-own on (n ∷ nodes) =
      let later = offered-own on nodes in
      elim (Bool-cases (is_of_sub id n)) [
        | inr e ↦
            rw e (
              keep-dropped (is_of_sub id) _ n (offered on (map (switch_node id v) nodes)) e ∙ later)
        | inl e ↦
            let here : on n.subscription_id ≡ on id = ap on (eqb→eq n.subscription_id id e) in
            elim (Bool-cases (truthy v)) [
              | inr t ↦ rw (e, t) (rw t at later)
              | inl t ↦ elim (Bool-cases (on id)) [
                | inr o ↦ rw (e, t, here, o) (rw (t, o) at later)
                | inl o ↦
                    let rest = rw (t, o) at later in
                    rw (e, t, here, o, e) (ap (switched_on n ∷◌) rest)
              ]
            ]
      ]

find-updated :
    (id : ℕ) (fields : Row) (subs : List Sub)
    → any (λ u. eqb u.id id) subs ≡ true
    → (u : Sub) × (find_sub id (map (update_sub id fields) subs) ≡ some u)
unfolding find_sub
find-updated id fields [] h = absurd (cc)
find-updated id fields (u ∷ subs) h = elim (Bool-cases (eqb u.id id)) [
  | inl e ↦ rw (e, e) (_, refl)
  | inr e ↦ rw (e, e) (find-updated id fields subs (rw e at h))
]

own_nodes :
    (id : ℕ) (b : Bool) (subs : List Sub) (nodes : List SubNode)
    → any (λ u. eqb u.id id) subs ≡ true
    → keep (is_of_sub id) (
        offered
          (λ k. sub_is_on k (map (update_sub id (switch b)) subs))
          (map (switch_node id (bool b)) nodes))
      ≡ (if b then map switched_on (keep (is_of_sub id) nodes) else [])
unfolding truthy
own_nodes id true subs nodes h =
    offered-own id (bool true) (λ k. sub_is_on k (map (update_sub id (switch true)) subs)) nodes
    ∙ rw (switched_to_on id subs h) refl
own_nodes id false subs nodes h =
    offered-own id (bool false) (λ k. sub_is_on k (map (update_sub id (switch false)) subs)) nodes

-- Where a subscription is there, switching it on or off succeeds, and decides what is offered of it:
-- all of its nodes, or none. What is offered of the other subscriptions stays as it is.
pub switching_decides :
    (id : ℕ) (b : Bool) (s : Feeds)
    → any (λ u. eqb u.id id) s.subs ≡ true
    → (keep (is_of_sub id) (list_enabled_thirdparty_nodes (update_thirdparty id (switch b) s).1)
        ≡ (if b then map switched_on (keep (is_of_sub id) s.nodes) else []))
      × (keep
            (λ n. not (is_of_sub id n))
            (list_enabled_thirdparty_nodes (update_thirdparty id (switch b) s).1)
          ≡ keep (λ n. not (is_of_sub id n)) (list_enabled_thirdparty_nodes s))
      × ((u : Summary) × ((update_thirdparty id (switch b) s).0 ≡ returned (some u)))
unfolding list_enabled_thirdparty_nodes update_thirdparty get_thirdparty has_unknown value_failure
    Dict.get
switching_decides id b s h =
    let found = find-updated id (switch b) s.subs h in
    let on = λ (k : ℕ). sub_is_on k (map (update_sub id (switch b)) s.subs) in
    rw found.1 (
      own_nodes id b s.subs s.nodes h,
      offered-others id (bool b) on (λ k. sub_is_on k s.subs) s.nodes
          (λ k e. sub_is_on-other id k (switch b) s.subs e),
      (_, refl),
    )

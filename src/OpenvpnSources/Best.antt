-- ===== src/OpenvpnSources/Best.antt =====
-- What `_deduplicate` of vps/openvpn_sources.py keeps for an address.
use kui_local_multi_exit.Prelude.{
  ◌≡◌, ◌≢◌, refl, sym, ap, subst, ◌∙◌, String, true, false, Option, none, some, List, [], ◌∷◌, ◌==◌,
  eq_iff, arith, In, ◌⊎◌, inl, inr, Bool-cases, if◌then◌else◌,
}
use kui_local_multi_exit.Prelude.Dict
use kui_local_multi_exit.Prelude.Dict.{Dict, get-put}
use kui_local_multi_exit.NodePool.Order.{lt_irrefl, lt_asym, lt_neg_trans}
use kui_local_multi_exit.OpenvpnSources.{
  source_priority, outranks, add_node, add_nodes, selected_nodes,
}
use kui_local_multi_exit.Store.{Node}

-- What is selected for an address out of the nodes with the property: nothing, if none of them has
-- the address, or one of them that none of the others outranks.
pub record IsBest (Listed : Node → Type 0) (ip : String) (o : Option Node) : Type 0 where
  pub missing : o ≡ none → (m : Node) → Listed m → m.ip ≢ ip
  pub listed : (n : Node) → o ≡ some n → Listed n × (n.ip ≡ ip)
  pub unmatched : (n : Node) → o ≡ some n → (m : Node) → Listed m → m.ip ≡ ip → outranks m n ≡ false

abbrev pub Also : Node → (Node → Type 0) → Node → Type 0
Also n Listed m = (m ≡ n) ⊎ Listed m

outranks_irrefl : (n : Node) → outranks n n ≡ false
unfolding outranks
outranks_irrefl n = lt_irrefl (source_priority n)

-- A node that does not outrank the old one does not outrank the one that does.
outranks_replaced :
    (m n p : Node) → outranks m p ≡ false → outranks n p ≡ true → outranks m n ≡ false
unfolding outranks
outranks_replaced m n p h k =
    lt_neg_trans (source_priority m) (source_priority p) (source_priority n) h
      (lt_asym (source_priority n) (source_priority p) k)

add_node-other :
    (n : Node) (d : Dict Node) (ip : String)
    → n.ip ≢ ip
    → Dict.get ip (add_node n d) ≡ Dict.get ip d
unfolding add_node
add_node-other n d ip h = ground (arith, get-put n.ip ip n d, eq_iff n.ip ip)

add_node-same :
    (n : Node) (d : Dict Node)
    → Dict.get n.ip (add_node n d) ≡ (elim (Dict.get n.ip d) as (λ _. Option Node) [
      | none ↦ some n
      | some p ↦ if outranks n p then some n else some p
    ])
unfolding add_node
add_node-same n d = ground (arith, get-put n.ip n.ip n d, eq_iff n.ip n.ip)

some_injective : (n q : Node) → ◌≡◌ {A = Option Node} (some n) (some q) → n ≡ q
some_injective n q e = cc

one-IsBest :
    (Listed : Node → Type 0) (ip : String) (n : Node)
    → Listed n
    → n.ip ≡ ip
    → ((m : Node) → Listed m → m.ip ≡ ip → outranks m n ≡ false)
    → IsBest Listed ip (some n)
one-IsBest Listed ip n here same best = record {
  missing = λ e. cc;
  listed = λ q e. subst (λ (z : Node). Listed z × (z.ip ≡ ip)) (some_injective n q e) (here, same);
  unmatched =
      λ q e m h k. subst (λ (z : Node). outranks m z ≡ false) (some_injective n q e) (best m h k);
}

-- The node is added, and it replaces what it outranks.
same_address :
    (Listed : Node → Type 0) (n : Node) (o : Option Node)
    → IsBest Listed n.ip o
    → IsBest (Also n Listed) n.ip (elim o as (λ _. Option Node) [
      | none ↦ some n
      | some p ↦ if outranks n p then some n else some p
    ])
same_address Listed n none b = one-IsBest (Also n Listed) n.ip n (inl refl) refl (λ m h k. elim h [
  | inl x ↦ rw (x, outranks_irrefl n) refl
  | inr x ↦ absurd (b.missing refl m x k)
])
same_address Listed n (some p) b = elim (Bool-cases (outranks n p)) [
  | inl h ↦ rw h (
      one-IsBest (Also n Listed) n.ip n (inl refl) refl (λ m l k. elim l [
        | inl x ↦ rw (x, outranks_irrefl n) refl
        | inr x ↦ outranks_replaced m n p (b.unmatched p refl m x k) h
      ]))
  | inr h ↦ rw h (
      one-IsBest (Also n Listed) n.ip p (inr (b.listed p refl).0) (b.listed p refl).1
        (λ m l k. elim l [ inl x ↦ rw (x, h) refl | inr x ↦ b.unmatched p refl m x k ]))
]

other_address :
    (Listed : Node → Type 0) (n : Node) (ip : String) (o : Option Node)
    → n.ip ≢ ip
    → IsBest Listed ip o
    → IsBest (Also n Listed) ip o
other_address Listed n ip o differs b = record {
  missing = λ e m h k. elim h [
    | inl x ↦ differs (ap (λ (z : Node). z.ip) (sym x) ∙ k)
    | inr x ↦ b.missing e m x k
  ];
  listed = λ q e. (inr (b.listed q e).0, (b.listed q e).1);
  unmatched = λ q e m h k. elim h [
    | inl x ↦ absurd (differs (ap (λ (z : Node). z.ip) (sym x) ∙ k))
    | inr x ↦ b.unmatched q e m x k
  ];
}

add_node-IsBest :
    (Listed : Node → Type 0) (n : Node) (d : Dict Node) (ip : String)
    → IsBest Listed ip (Dict.get ip d)
    → IsBest (Also n Listed) ip (Dict.get ip (add_node n d))
add_node-IsBest Listed n d ip b = elim (Bool-cases (n.ip == ip)) [
  | inl h ↦
      subst (λ i. IsBest (Also n Listed) i (Dict.get i (add_node n d))) ((eq_iff n.ip ip).0 h)
        (rw (add_node-same n d) (
          same_address Listed n (Dict.get n.ip d)
            (subst (λ i. IsBest Listed i (Dict.get i d)) (sym ((eq_iff n.ip ip).0 h)) b)))
  | inr h ↦
      let differs : n.ip ≢ ip = λ k. cc (h, (eq_iff n.ip ip).1 k) in
      rw (add_node-other n d ip differs) (other_address Listed n ip (Dict.get ip d) differs b)
]

-- A longer list of what is listed, told in another order.
reordered :
    (Listed Told : Node → Type 0) (ip : String) (o : Option Node)
    → ((m : Node) → Listed m → Told m)
    → ((m : Node) → Told m → Listed m)
    → IsBest Listed ip o
    → IsBest Told ip o
reordered Listed Told ip o there back b = record {
  missing = λ e m h. b.missing e m (back m h);
  listed = λ q e. (there q (b.listed q e).0, (b.listed q e).1);
  unmatched = λ q e m h. b.unmatched q e m (back m h);
}

abbrev Remaining : List Node → (Node → Type 0) → Node → Type 0
Remaining ns Listed m = In m ns ⊎ Listed m

add_nodes-IsBest :
    (ns : List Node) (Listed : Node → Type 0) (d : Dict Node) (ip : String)
    → IsBest Listed ip (Dict.get ip d)
    → IsBest (Remaining ns Listed) ip (Dict.get ip (add_nodes ns d))
unfolding add_nodes
add_nodes-IsBest [] Listed d ip b =
    reordered Listed (Remaining [] Listed) ip (Dict.get ip d) (λ m h. inr h)
      (λ m h. elim h [ inl x ↦ absurd x | inr x ↦ x ]) b
add_nodes-IsBest (n ∷ ns) Listed d ip b =
    reordered (Remaining ns (Also n Listed)) (Remaining (n ∷ ns) Listed) ip
      (Dict.get ip (add_nodes ns (add_node n d)))
      (λ m h. elim h [
        | inl x ↦ inl (inr x)
        | inr x ↦ elim x [ inl y ↦ inl (inl y) | inr y ↦ inr y ]
      ])
      (λ m h. elim h [
        | inl x ↦ elim x [ inl y ↦ inr (inl y) | inr y ↦ inl y ]
        | inr x ↦ inr (inr x)
      ])
      (add_nodes-IsBest ns (Also n Listed) (add_node n d) ip (add_node-IsBest Listed n d ip b))

-- For each address `_deduplicate` keeps a node if and only if one is listed, and keeps one of those
-- that no node with that address outranks, by source, ping and score.
pub deduplicate-IsBest :
    (nodes : List Node) (ip : String)
    → IsBest (λ m. In m nodes) ip (Dict.get ip (selected_nodes nodes))
unfolding Dict.get
deduplicate-IsBest nodes ip =
    reordered (Remaining nodes (λ _. ⊥)) (λ m. In m nodes) ip (Dict.get ip (selected_nodes nodes))
      (λ m h. elim h [ inl x ↦ x | inr x ↦ absurd x ]) (λ m h. inl h)
      (add_nodes-IsBest nodes (λ _. ⊥) [] ip
        (record {
          missing = λ e m h. absurd h;
          listed = λ q e. absurd (cc);
          unmatched = λ q e m h. absurd h;
        }))

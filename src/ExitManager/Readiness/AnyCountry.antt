-- ===== src/ExitManager/Readiness/AnyCountry.antt =====
-- ExitManager._select_node and commit_ready of vps/exit_manager.py, at a slot whose country is ANY.
use kui_local_multi_exit.Prelude.{
  ℕ, ◌≡◌, refl, sym, subst, false≢true, [], String, Bool, true, false, ◌||◌, Option, some, List,
  ◌==◌, eq_iff, arith, Bool-cases, inl, inr,
}
use kui_local_multi_exit.Prelude.Text.{upper}
use kui_local_multi_exit.Prelude.Exec.{returned}
use kui_local_multi_exit.Json.{Fields, lookup_str}
use kui_local_multi_exit.Models.{ExitSlotSnapshot}
use kui_local_multi_exit.Outside.{Outside, Listener}
use kui_local_multi_exit.Store.{Node, find_row}
use kui_local_multi_exit.ExitManager.{Manager}
use kui_local_multi_exit.ExitManager.Nodes.{acceptable, is_exit_country, select_node}
use kui_local_multi_exit.ExitManager.Nodes.Exclusive.{select_node-Suitable}
use kui_local_multi_exit.ExitManager.Readiness.{commit_ready, is_superseded, node_country}
use kui_local_multi_exit.ExitManager.Readiness.Commit.{superseded_commit_ignored}

exit_country_named : (c : String) → is_exit_country c ≡ true → "ANY" == upper c ≡ false
unfolding is_exit_country
exit_country_named c h = elim (Bool-cases ("ANY" == upper c)) [
  | inr e ↦ e
  | inl e ↦
      let three =
        subst (λ u. (u == "JP" || (u == "KR" || u == "US")) ≡ true)
          (sym ((eq_iff "ANY" (upper c)).0 e)) h in
      absurd (false≢true three)
]

country_accepted :
    (proxied : Bool) (n : Node) → acceptable proxied [] n ≡ true → is_exit_country n.country ≡ true
country_accepted proxied n h = ground arith

other_country :
    (r : ExitSlotSnapshot) (generation : ℕ) (country : String)
    → r.country ≡ "ANY"
    → "ANY" == country ≡ false
    → is_superseded r generation country ≡ true
other_country r generation country e h =
    let apart = subst (λ x. x == country ≡ false) (sym e) h in ground arith

dict_country :
    (node : Fields) (country : String)
    → lookup_str "country" node ≡ some country
    → node_country node ≡ upper country
dict_country node country e = rw (node_country, e) refl

-- A node that `_select_node` finds for a slot whose country is ANY does not let that slot be
-- committed: commit_ready returns false, and nothing is changed. The slot is there, and the node's
-- dict names its country.
pub any_slot_uncommitted :
    (out : Outside) (id : String) (generation : ℕ) (entry egress : String) (node result : Fields)
    (prepared : Option Listener) (m : Manager) (r : ExitSlotSnapshot) (proxied : Bool)
    (excluded : List String) (now mono : ℕ) (n : Node)
    → find_row id m.store.slots ≡ some r
    → r.country ≡ "ANY"
    → select_node proxied "ANY" excluded now mono m.pool ≡ some n
    → lookup_str "country" node ≡ some n.country
    → commit_ready out id generation entry egress node result prepared m ≡ (returned false, m)
any_slot_uncommitted out id generation entry egress node result prepared m r proxied excluded now
      mono n e any_country found named =
    let s = select_node-Suitable proxied "ANY" now mono m.pool excluded n found in
    let known : is_exit_country n.country ≡ true = country_accepted proxied n s.accepted in
    let apart = exit_country_named n.country known in
    superseded_commit_ignored out id generation entry egress node result prepared m r e (
      other_country r generation (node_country node) any_country
        (subst (λ x. "ANY" == x ≡ false) (sym (dict_country node n.country named)) apart))

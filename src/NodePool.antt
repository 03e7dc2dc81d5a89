-- ===== src/NodePool.antt =====
-- vps/vpngate.py, class NodePool: the OpenVPN nodes that a slot may dial, with penalties and
-- cooldowns. `now` (`time.time()`) and `mono` (`time.monotonic()`) are in milliseconds; a `set` of
-- addresses is the list of its members. The lock serialises the methods: each is one step.
pub mod Order
pub mod Selection
pub mod Refresh
use kui_local_multi_exit.Prelude.{
  ℕ, ◌+◌, ◌-◌, ◌*◌, ◌/◌, String, Bool, true, false, not, ◌&&◌, ◌||◌, Option, none, some, List, [],
  ◌∷◌, ◌==◌, ltb, leb, eqb, any, keep, map, min, if◌then◌else◌,
}
use kui_local_multi_exit.Prelude.Dict
use kui_local_multi_exit.Prelude.Dict.{Dict}
use kui_local_multi_exit.Prelude.Int.{ℤ, pos, ◌+ℤ◌, neg, ltz, eqz, maxz}
use kui_local_multi_exit.Prelude.Sort.{sort, head}
use kui_local_multi_exit.Store.{Node}

pub record NodePool : Type 0 where
  pub nodes : Dict Node
  pub penalties : Dict ℕ
  pub retry_after : Dict ℕ

abbrev pub empty : NodePool
empty = record { nodes = []; penalties = []; retry_after = [] }

abbrev pub or_zero : Option ℕ → ℕ
or_zero none = 0
or_zero (some n) = n

-- The snapshot's node, with the worse of the new ping and the ping that the pool had.
unfoldable pub merged_node : Option Node → Node → Node
merged_node none n = n
merged_node (some previous) n = record n { ping = maxz n.ping previous.ping }

unfoldable pub merge_nodes : Dict Node → List Node → Dict Node → Dict Node
unfolding merged_node
merge_nodes old [] merged = merged
merge_nodes old (n ∷ ns) merged =
    merge_nodes old ns (Dict.put n.ip (merged_node (Dict.get n.ip old) n) merged)

unfoldable pub replace : List Node → NodePool → NodePool
unfolding merge_nodes
replace nodes p = record p { nodes = merge_nodes p.nodes nodes [] }

abbrev pub cooldown : ℕ
cooldown = 120000

unfoldable pub penalize : String → ℕ → ℕ → NodePool → NodePool
penalize ip amount mono p = record p {
  penalties = Dict.put ip (or_zero (Dict.get ip p.penalties) + amount) p.penalties;
  retry_after = Dict.put ip (mono + cooldown) p.retry_after;
}

-- The tuple that `_priority` returns; the last component is -score.
pub record Priority : Type 0 where
  pub tier : ℕ
  pub cost : ℤ
  pub demerit : ℤ

abbrev freshness : ℕ → ℕ
freshness age = if leb age 3600000 then 0 else if leb age 86400000 then 1 else 2

abbrev pub penalty_of : NodePool → Node → ℕ
penalty_of p n = or_zero (Dict.get n.ip p.penalties)

-- The subtraction stops at 0, as `max(0, now - harvested_at)` does.
unfoldable pub priority : NodePool → ℕ → Node → Priority
priority p now n =
    let penalty = penalty_of p n in
    record {
      tier = freshness (now - n.harvested_at) + min (penalty / 10000) 3;
      cost = n.ping +ℤ pos penalty;
      demerit = neg n.score;
    }

-- `<` on the tuples.
abbrev pub lt_priority : Priority → Priority → Bool
lt_priority a b =
    ltb a.tier b.tier
    || (eqb a.tier b.tier && (ltz a.cost b.cost || (eqz a.cost b.cost && ltz a.demerit b.demerit)))

abbrev pub in_country : String → Node → Bool
in_country country n = country == "ANY" || n.country == country

abbrev pub is_member : String → List String → Bool
is_member ip = any (λ x. x == ip)

-- The conditions of the comprehension in `select`.
unfoldable pub is_candidate : NodePool → String → List String → ℕ → Node → Bool
is_candidate p country excluded mono n =
    in_country country n
    && (not (is_member n.ip excluded) && leb (or_zero (Dict.get n.ip p.retry_after)) mono)

abbrev pub comes_first : NodePool → ℕ → Node → Node → Bool
comes_first p now a b = lt_priority (priority p now a) (priority p now b)

unfoldable pub candidates : NodePool → String → List String → ℕ → List Node
unfolding is_candidate
candidates p country excluded mono =
    keep (is_candidate p country excluded mono) (Dict.values p.nodes)

unfoldable pub select : String → List String → ℕ → ℕ → NodePool → Option Node
unfolding candidates priority sort
select country excluded now mono p =
    head (sort (comes_first p now) (candidates p country excluded mono))

-- `get`: no cooldown is looked at, the country is.
unfoldable pub get : String → String → NodePool → Option Node
get ip country p = elim (Dict.get ip p.nodes) [
  | none ↦ none
  | some n ↦ if in_country country n then some n else none
]

unfoldable pub count_countries : List Node → Dict ℕ → Dict ℕ
count_countries [] result = result
count_countries (n ∷ ns) result =
    count_countries ns (Dict.put n.country (or_zero (Dict.get n.country result) + 1) result)

unfoldable pub counts : NodePool → Dict ℕ
unfolding count_countries
counts p = count_countries (Dict.values p.nodes) []

-- The listing drops `config`; here the field is emptied.
unfoldable pub list_nodes : String → ℕ → NodePool → List Node
unfolding priority sort
list_nodes country now p =
    map (λ (n : Node). record n { config = "" })
      (sort (comes_first p now) (keep (in_country country) (Dict.values p.nodes)))

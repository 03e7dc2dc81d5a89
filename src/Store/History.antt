-- ===== src/Store/History.antt =====
-- vps/store.py: the rolling pool of OpenVPN nodes, check results, events and settings.
use Prim.Native.Nat.{Ordering}
use Prim.Native.String.{compare}
use mathlib.Core.List.{reverse}
use kui_local_multi_exit.Prelude.{
  ℕ, suc, ◌+◌, ◌*◌, String, Bool, true, false, not, ◌&&◌, ◌||◌, Option, none, some, List, [], ◌∷◌,
  ◌++◌, map, ◌==◌, ltb, eqb, keep, first, take, length, min, max, if◌then◌else◌,
}
use kui_local_multi_exit.Prelude.Dict
use kui_local_multi_exit.Prelude.Sort.{sort}
use kui_local_multi_exit.Prelude.Text.{before}
use kui_local_multi_exit.Prelude.Exec.{Exec, returned, modify}
use kui_local_multi_exit.Json.{Fields}
use kui_local_multi_exit.Store.{Store, Event, CheckRow, Node, VpnRow}

abbrev pub day : ℕ
day = 86400

-- created_at < now - max(1, days) * 86400, without the subtraction
unfoldable pub is_older : ℕ → ℕ → ℕ → Bool
is_older days now t = ltb (t + max 1 days * day) now

abbrev fresh_vpn_row : ℕ → Node → VpnRow
fresh_vpn_row now n = record {
  node = n;
  penalty = 0;
  updated_at = now;
  first_seen_at = now;
  last_seen_at = now;
}

-- INSERT … ON CONFLICT(ip) DO UPDATE: penalty and first_seen_at stay.
unfoldable pub upsert_node : ℕ → Node → List VpnRow → List VpnRow
upsert_node now n [] = fresh_vpn_row now n ∷ []
upsert_node now n (r ∷ rows) =
    let rest = upsert_node now n rows in
    if r.node.ip == n.ip
    then record r { node = n; updated_at = now; last_seen_at = now } ∷ rows
    else r ∷ rest

abbrev pub is_expired_row : ℕ → ℕ → VpnRow → Bool
is_expired_row days now r = ltb 0 r.last_seen_at && is_older days now r.last_seen_at

unfoldable pub upsert_nodes : ℕ → List Node → List VpnRow → List VpnRow
unfolding upsert_node
upsert_nodes now [] rows = rows
upsert_nodes now (n ∷ ns) rows = upsert_nodes now ns (upsert_node now n rows)

unfoldable pub replace_vpn_nodes : List Node → ℕ → ℕ → Exec Store Unit
unfolding upsert_nodes is_older
replace_vpn_nodes nodes retention_days now s = (
  returned tt,
  record s {
    vpn_nodes =
        keep (λ r. not (is_expired_row retention_days now r)) (upsert_nodes now nodes s.vpn_nodes);
  },
)

-- ORDER BY last_seen_at DESC, ip
abbrev seen_before : VpnRow → VpnRow → Bool
seen_before a b =
    ltb b.last_seen_at a.last_seen_at
    || (eqb a.last_seen_at b.last_seen_at
        && elim (compare a.node.ip b.node.ip) [ Ordering.lt ↦ true | _ ↦ false ])

unfoldable pub load_vpn_nodes : Store → List Node
unfolding sort
load_vpn_nodes s = map (λ r. r.node) (sort seen_before s.vpn_nodes)

unfoldable pub append_check_result : String → ℕ → Fields → ℕ → Exec Store Unit
append_check_result slot_id generation result now s = (
  returned tt,
  record s {
    checks =
        s.checks
        ++ record {
          id = s.next_check;
          slot_id = slot_id;
          generation = generation;
          result = result;
          created_at = now;
        }
          ∷ [];
    next_check = suc s.next_check;
  },
)

abbrev bounded_limit : ℕ → ℕ
bounded_limit limit = max 1 (min limit 500)

-- Newest first.
unfoldable pub list_check_results : Option String → ℕ → Store → List CheckRow
list_check_results none limit s = take (bounded_limit limit) (reverse s.checks)
list_check_results (some id) limit s =
    take (bounded_limit limit) (reverse (keep (λ r. r.slot_id == id) s.checks))

unfoldable pub list_events : ℕ → Store → List Event
list_events limit s = take (bounded_limit limit) (reverse s.events)

abbrev is_connection_of : String → Event → Bool
is_connection_of id e = elim e.slot_id [ none ↦ false | some j ↦ j == id && e.kind == "connected" ]

-- The entry address of the newest "connected" event, whose message is "entry -> egress".
unfoldable pub last_connected_entry_ip : String → Store → String
unfolding before
last_connected_entry_ip id s = elim (first (is_connection_of id) (reverse s.events)) [
  | none ↦ ""
  | some e ↦ elim (before " -> " e.message) [ none ↦ "" | some ip ↦ ip ]
]

unfoldable pub prune_history : ℕ → ℕ → Exec Store ℕ
unfolding is_older
prune_history retention_days now s =
    let old_event = λ (e : Event). is_older retention_days now e.created_at in
    let old_check = λ (r : CheckRow). is_older retention_days now r.created_at in
    (
      returned (length (keep old_event s.events) + length (keep old_check s.checks)),
      record s {
        events = keep (λ e. not (old_event e)) s.events;
        checks = keep (λ r. not (old_check r)) s.checks;
      },
    )

unfoldable pub get_setting : String → String → Store → String
unfolding Dict.get
get_setting key default s = elim (Dict.get key s.settings) [ none ↦ default | some v ↦ v ]

unfoldable pub set_setting : String → String → Exec Store Unit
unfolding Dict.put
set_setting key value = modify (λ s. record s { settings = Dict.put key value s.settings })

unfoldable pub delete_setting : String → Exec Store Unit
unfolding Dict.pop
delete_setting key = modify (λ s. record s { settings = Dict.pop key s.settings })

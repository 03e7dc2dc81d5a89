-- ===== src/Panel/Subscriptions.antt =====
-- The tables thirdparty_subs and thirdparty_nodes of vps/store.py.
pub mod Enabling
use kui_local_multi_exit.Prelude.{
  ℕ, suc, String, ◌==◌, Bool, true, false, not, ◌&&◌, Option, none, some, List, [], ◌∷◌, ◌++◌, any,
  eqb, first, keep, map, length, if◌then◌else◌,
}
use kui_local_multi_exit.Prelude.Dict
use kui_local_multi_exit.Prelude.Int.{ℤ, pos}
use kui_local_multi_exit.Prelude.Text.{decimal, int, strip}
use kui_local_multi_exit.Prelude.Exec.{
  Exec, Outcome, returned, raised, pure, raise, gets, modify, key_error, type_error, value_error,
  proceed, ◌>>=◌, ◌>>◌,
}
use kui_local_multi_exit.Json.{Json, null, bool, num, str, arr, obj, truthy}
use kui_local_multi_exit.Panel.{
  Row, write_fields, check_fields, check_values, value_failure, stored, is_some,
}

-- A subscription: `columns` has its name, its address and its instants.
pub record Sub : Type 0 where
  pub id : ℕ
  pub enable : Json
  pub columns : Row

pub record SubNode : Type 0 where
  pub id : ℕ
  pub subscription_id : ℕ
  pub enable : Json
  pub columns : Row

-- The rows by id; `last_sub` and `last_node` are SQLite's AUTOINCREMENT counters.
pub record Feeds : Type 0 where
  pub subs : List Sub
  pub nodes : List SubNode
  pub last_sub : ℕ
  pub last_node : ℕ

-- What `get_thirdparty` selects.
pub record Summary : Type 0 where
  pub sub : Sub
  pub node_count : ℕ

-- enable = 1
abbrev pub is_on : Json → Bool
is_on (num (pos n)) = eqb n 1
is_on (bool b) = b
is_on _ = false

abbrev or_int : Option ℤ → Outcome ℤ
or_int none = raised (value_error "invalid literal for int()")
or_int (some n) = returned n

-- int(v)
abbrev int_of : Json → Outcome ℤ
int_of (num n) = returned n
int_of (bool b) = returned (pos (if b then 1 else 0))
int_of (str s) = or_int (int (strip s))
int_of _ = raised (type_error "int() argument must be a string or a real number")

abbrev get_or : String → Json → Row → Json
get_or k default d = elim (Dict.get k d) [ none ↦ default | some v ↦ v ]

abbrev item : String → Row → Outcome Json
item k d = elim (Dict.get k d) [ none ↦ raised (key_error k) | some v ↦ returned v ]

abbrev and_then : {A B : Type 0} → Outcome A → (A → Outcome B) → Outcome B
and_then (returned a) f = f a
and_then (raised e) f = raised e

-- What the INSERT of a row keeps of it.
abbrev admit : Row → Outcome Row
admit row = elim (value_failure true row) [
  | some e ↦ raised e
  | none ↦ returned (write_fields row [])
]

-- The columns of a node that is inserted.
unfoldable pub node_columns : ℕ → Row → Outcome Row
node_columns now node = and_then (item "protocol" node) (λ protocol.
    and_then (item "address" node) (λ address. and_then (item "port" node) (λ raw_port.
      and_then (int_of raw_port) (λ port. admit (
        ("name", get_or "name" (str "") node)
        ∷ ("protocol", protocol)
        ∷ ("address", address)
        ∷ ("port", num port)
        ∷ ("uuid", get_or "uuid" (str "") node)
        ∷ ("password", get_or "password" (str "") node)
        ∷ ("sni", get_or "sni" (str "") node)
        ∷ ("public_key", get_or "public_key" (str "") node)
        ∷ ("short_id", get_or "short_id" (str "") node)
        ∷ ("flow", get_or "flow" (str "") node)
        ∷ ("network", get_or "network" (str "tcp") node)
        ∷ ("host", get_or "host" (str "") node)
        ∷ ("path", get_or "path" (str "") node)
        ∷ ("extra", get_or "extra" (str "") node)
        ∷ ("created_at", num (pos now))
        ∷ [])))))

-- The statements of `add_thirdparty` that insert nodes, on the rows as they stand so far.
unfoldable pub insert_nodes : ℕ → ℕ → List Row → Feeds → Outcome Feeds
insert_nodes sub now [] s = returned s
insert_nodes sub now (node ∷ more) s = and_then (node_columns now node) (λ columns.
    insert_nodes sub now more (record s {
      nodes =
          s.nodes
          ++ (record {
            id = suc s.last_node;
            subscription_id = sub;
            enable = num (pos 1);
            columns = columns;
          }
              ∷ []);
      last_node = suc s.last_node;
    }))

abbrev pub insert_sub : String → String → ℕ → Feeds → Feeds
insert_sub name url now s = record s {
  subs =
      s.subs
      ++ (record {
        id = suc s.last_sub;
        enable = num (pos 1);
        columns =
            ("name", str name)
            ∷ ("url", str url)
            ∷ ("created_at", num (pos now))
            ∷ ("last_fetched_at", num (pos now))
            ∷ [];
      }
          ∷ []);
  last_sub = suc s.last_sub;
}

unfoldable pub find_sub : ℕ → List Sub → Option Sub
find_sub id = first (λ u. eqb u.id id)

abbrev pub is_of_sub : ℕ → SubNode → Bool
is_of_sub id n = eqb n.subscription_id id

abbrev summary_of : List SubNode → Option Sub → Option Summary
summary_of nodes none = none
summary_of nodes (some u) =
    some (record { sub = u; node_count = length (keep (is_of_sub u.id) nodes) })

unfoldable pub get_thirdparty : ℕ → Feeds → Option Summary
get_thirdparty id s = summary_of s.nodes (find_sub id s.subs)

-- commit or rollback
abbrev commit : Outcome Feeds → Exec Feeds Unit
commit (returned t) s = (returned tt, t)
commit (raised e) s = (raised e, s)

unfoldable pub add_thirdparty : String → String → List Row → ℕ → Exec Feeds (Option Summary)
add_thirdparty name url nodes now s =
    let id = suc s.last_sub in
    (do commit (insert_nodes id now nodes (insert_sub name url now s)); gets (get_thirdparty id)) s

abbrev pub sub_is_on : ℕ → List Sub → Bool
sub_is_on id = any (λ u. eqb u.id id && is_on u.enable)

unfoldable pub list_enabled_thirdparty_nodes : Feeds → List SubNode
list_enabled_thirdparty_nodes s =
    keep (λ n. is_on n.enable && sub_is_on n.subscription_id s.subs) s.nodes

abbrev enable_of : Json → Option Json → Json
enable_of old none = old
enable_of old (some v) = stored "enable" v

abbrev pub update_sub : ℕ → Row → Sub → Sub
update_sub id fields u =
    if eqb u.id id
    then record u {
      enable = enable_of u.enable (Dict.get "enable" fields);
      columns = write_fields (Dict.pop "enable" fields) u.columns;
    }
    else u

abbrev pub switch_node : ℕ → Json → SubNode → SubNode
switch_node id value n =
    if is_of_sub id n then record n { enable = num (pos (if truthy value then 1 else 0)) } else n

abbrev pub switch_nodes : ℕ → Option Json → List SubNode → List SubNode
switch_nodes id none nodes = nodes
switch_nodes id (some value) nodes = map (switch_node id value) nodes

abbrev or_key_error : ℕ → Option Summary → Exec Feeds (Option Summary)
or_key_error id none = raise (key_error (decimal id))
or_key_error id (some u) = pure (some u)

unfoldable pub update_thirdparty : ℕ → Row → Exec Feeds (Option Summary)
update_thirdparty id fields = do
  check_fields ("name" ∷ "url" ∷ "enable" ∷ []) fields
  there ← gets (λ s. find_sub id s.subs)
  check_values (is_some there) fields
  modify (λ s. record s {
    subs = map (update_sub id fields) s.subs;
    nodes = switch_nodes id (Dict.get "enable" fields) s.nodes;
  })
  found ← gets (get_thirdparty id)
  or_key_error id found

unfoldable pub delete_thirdparty : ℕ → Exec Feeds Unit
delete_thirdparty id = modify (λ s. record s {
  nodes = keep (λ n. not (is_of_sub id n)) s.nodes;
  subs = keep (λ u. not (eqb u.id id)) s.subs;
})

-- ===== src/Panel/Hosts.antt =====
-- The tables vps_list and node_list of vps/store.py.
pub mod Cascade
pub mod Numbering
use kui_local_multi_exit.Prelude.{
  ℕ, suc, max, String, ◌==◌, Bool, true, false, not, Option, none, some, List, [], ◌∷◌, ◌++◌, any,
  eqb, first, keep, map, if◌then◌else◌,
}
use kui_local_multi_exit.Prelude.Dict
use kui_local_multi_exit.Prelude.Dict.{Dict}
use kui_local_multi_exit.Prelude.Int.{ℤ, pos}
use kui_local_multi_exit.Prelude.Text.{decimal}
use kui_local_multi_exit.Prelude.Exec.{
  Exec, pure, raise, gets, modify, integrity_error, key_error, value_error, ◌>>=◌, ◌>>◌,
}
use kui_local_multi_exit.Json.{Json, str, num}
use kui_local_multi_exit.Panel.{Row, has_unknown, write_fields, check_fields, check_values, is_some}

-- A row of node_list; its column `ip` names the host.
pub record NodeRow : Type 0 where
  pub id : ℕ
  pub columns : Row

-- `last_id` is SQLite's AUTOINCREMENT counter of node_list.
pub record Hosts : Type 0 where
  pub vps : Dict Row
  pub nodes : List NodeRow
  pub last_id : ℕ

abbrev pub egress_fields : List String
egress_fields =
    "egress_mode" ∷ "proxy_mode" ∷ "proxy_categories" ∷ "egress_revision" ∷ "egress_status"
    ∷ "egress_applied_mode" ∷ "egress_applied_revision" ∷ "egress_error" ∷ "egress_ip"
    ∷ "socks5_addr" ∷ "socks5_port" ∷ "socks5_user" ∷ "socks5_pass" ∷ []

abbrev pub link_fields : List String
link_fields =
    "address" ∷ "port" ∷ "username" ∷ "uuid" ∷ "password" ∷ "sni" ∷ "private_key" ∷ "public_key"
    ∷ "short_id" ∷ "flow" ∷ "network" ∷ "host" ∷ "path" ∷ "extra" ∷ "relay_type" ∷ "target_ip"
    ∷ "target_port" ∷ "target_id" ∷ "enable" ∷ "traffic_used" ∷ []

-- The columns that an INSERT leaves to their defaults in the schema.
abbrev vps_defaults : Row
vps_defaults =
    ("name", str "")
    ∷ ("os", str "debian")
    ∷ ("egress_mode", str "")
    ∷ ("proxy_mode", str "")
    ∷ ("proxy_categories", str "")
    ∷ ("egress_revision", num (pos 0))
    ∷ ("egress_status", str "")
    ∷ ("egress_applied_mode", str "")
    ∷ ("egress_applied_revision", num (pos 0))
    ∷ ("egress_error", str "")
    ∷ ("egress_ip", str "")
    ∷ ("socks5_addr", str "")
    ∷ ("socks5_port", num (pos 0))
    ∷ ("socks5_user", str "")
    ∷ ("socks5_pass", str "")
    ∷ []

abbrev node_defaults : Row
node_defaults =
    ("address", str "")
    ∷ ("port", num (pos 0))
    ∷ ("username", str "")
    ∷ ("uuid", str "")
    ∷ ("password", str "")
    ∷ ("sni", str "")
    ∷ ("private_key", str "")
    ∷ ("public_key", str "")
    ∷ ("short_id", str "")
    ∷ ("flow", str "")
    ∷ ("network", str "tcp")
    ∷ ("host", str "")
    ∷ ("path", str "")
    ∷ ("extra", str "")
    ∷ ("relay_type", str "")
    ∷ ("target_ip", str "")
    ∷ ("target_port", num (pos 0))
    ∷ ("target_id", num (pos 0))
    ∷ ("enable", num (pos 1))
    ∷ ("traffic_used", num (pos 0))
    ∷ []

abbrev check_known : List String → Row → Exec Hosts Unit
check_known allowed fields =
    if has_unknown allowed fields then raise (value_error "unsupported fields") else pure tt

abbrev insert_vps : String → Row → Option Row → Exec Hosts Unit
insert_vps ip row (some old) = raise (integrity_error "UNIQUE constraint failed: vps_list.ip")
insert_vps ip row none = modify (λ s. record s { vps = Dict.put ip row s.vps })

abbrev pub get_vps : String → Hosts → Option Row
get_vps ip s = Dict.get ip s.vps

abbrev pub vps_values : String → String → Row → ℕ → Row
vps_values name os fields now =
    ("name", str name) ∷ ("os", str os) ∷ (fields ++ (("created_at", num (pos now)) ∷ []))

unfoldable pub add_vps : String → String → String → Row → ℕ → Exec Hosts (Option Row)
add_vps ip name os fields now = do
  check_known egress_fields fields
  check_values true (vps_values name os fields now)
  taken ← gets (get_vps ip)
  insert_vps ip (write_fields (vps_values name os fields now) vps_defaults) taken
  gets (get_vps ip)

unfoldable pub update_vps_rows : String → (Row → Row) → Dict Row → Dict Row
update_vps_rows ip f [] = []
update_vps_rows ip f ((k, row) ∷ rows) =
    let rest = update_vps_rows ip f rows in if k == ip then (k, f row) ∷ rest else (k, row) ∷ rest

abbrev or_key_error : String → Option Row → Exec Hosts (Option Row)
or_key_error key none = raise (key_error key)
or_key_error key (some row) = pure (some row)

unfoldable pub update_vps : String → Row → Exec Hosts (Option Row)
update_vps ip fields = do
  check_fields ("name" ∷ "os" ∷ egress_fields) fields
  there ← gets (get_vps ip)
  check_values (is_some there) fields
  modify (λ s. record s { vps = update_vps_rows ip (write_fields fields) s.vps })
  row ← gets (get_vps ip)
  or_key_error ip row

-- WHERE ip = ?
abbrev pub is_of_host : String → NodeRow → Bool
is_of_host ip n = elim (Dict.get "ip" n.columns) [ some (str x) ↦ x == ip | _ ↦ false ]

unfoldable pub delete_vps : String → Exec Hosts Unit
delete_vps ip =
    modify
      (λ s. record s { vps = Dict.pop ip s.vps; nodes = keep (λ n. not (is_of_host ip n)) s.nodes })

-- SELECT * FROM node_list WHERE id = ?
unfoldable pub find_node : ℕ → List NodeRow → Option NodeRow
find_node id = first (λ n. eqb n.id id)

-- INSERT with a given id; SQLite's counter never falls.
abbrev insert_node : ℕ → Row → Option NodeRow → Exec Hosts Unit
insert_node id row (some old) = raise (integrity_error "UNIQUE constraint failed: node_list.id")
insert_node id row none = modify (λ s. record s {
  nodes = s.nodes ++ (record { id = id; columns = row } ∷ []);
  last_id = max s.last_id id;
})

abbrev pub node_id_of : Option ℕ → Hosts → ℕ
node_id_of none s = suc s.last_id
node_id_of (some id) s = id

abbrev pub node_values : Row → Row → ℕ → Row
node_values base fields now = base ++ (fields ++ (("created_at", num (pos now)) ∷ []))

-- The id is the given one, or the next one of the counter.
unfoldable pub add_node : Option ℕ → Row → Row → ℕ → Exec Hosts (Option NodeRow)
add_node node_id base fields now = do
  check_known link_fields fields
  id ← gets (node_id_of node_id)
  check_values true (("id", num (pos id)) ∷ node_values base fields now)
  taken ← gets (λ s. find_node id s.nodes)
  insert_node id (write_fields (node_values base fields now) node_defaults) taken
  gets (λ s. find_node id s.nodes)

abbrev update_columns : ℕ → Row → NodeRow → NodeRow
update_columns id fields n =
    if eqb n.id id then record n { columns = write_fields fields n.columns } else n

abbrev or_no_node : ℕ → Option NodeRow → Exec Hosts (Option NodeRow)
or_no_node id none = raise (key_error (decimal id))
or_no_node id (some n) = pure (some n)

abbrev pub node_fields : List String
node_fields = "ip" ∷ "name" ∷ "protocol" ∷ "traffic_limit" ∷ "expire_time" ∷ link_fields

unfoldable pub update_node : ℕ → Row → Exec Hosts (Option NodeRow)
update_node id fields = do
  check_fields node_fields fields
  there ← gets (λ s. find_node id s.nodes)
  check_values (is_some there) fields
  modify (λ s. record s { nodes = map (update_columns id fields) s.nodes })
  n ← gets (λ s. find_node id s.nodes)
  or_no_node id n

unfoldable pub delete_node : ℕ → Exec Hosts Unit
delete_node id = modify (λ s. record s { nodes = keep (λ n. not (eqb n.id id)) s.nodes })

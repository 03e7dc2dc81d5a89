-- ===== src/Store/Template.antt =====
-- vps/store.py: `initialize`, which creates the slot rows from the JP/KR/US template and moves
-- databases with other countries over to it. The `CREATE TABLE` and `ALTER TABLE` statements are
-- the record types of Store.antt.
use Prim.Native.Nat.{Ordering}
use Prim.Native.String.{compare}
use kui_local_multi_exit.Prelude.{
  ℕ, zero, suc, ◌+◌, String, ◌<>◌, Bool, true, false, not, ◌&&◌, ◌||◌, none, List, [], ◌∷◌, ◌==◌,
  leb, eqb, any, take, if◌then◌else◌,
}
use kui_local_multi_exit.Prelude.Text.{decimal}
use kui_local_multi_exit.Prelude.Exec.{Exec, value_error, modify, pure, raise, ◌>>◌}
use kui_local_multi_exit.Json.{end}
use kui_local_multi_exit.Models.{ExitSlotSnapshot, idle}
use kui_local_multi_exit.SlotConfig.{max_slot_count, base_proxy_port, base_route_table, slot_id}
use kui_local_multi_exit.Store.{Store, set_slots, update_rows, record_event}

abbrev pub repeat : ℕ → String → List String → List String
repeat zero c rest = rest
repeat (suc n) c rest = c ∷ repeat n c rest

-- DEFAULT_COUNTRIES, and the ten further ones of SLOT_COUNTRIES.
abbrev pub slot_countries : List String
slot_countries =
    repeat 8 "JP" (repeat 8 "KR" (repeat 8 "US" (repeat 4 "JP" (repeat 4 "KR" (repeat 2 "US" [])))))

unfoldable pub is_allowed_country : String → Bool
is_allowed_country c = c == "JP" || (c == "KR" || c == "US")

-- The row of INSERT OR IGNORE INTO exit_slots, for the slot of that index.
unfoldable pub template_row : ℕ → String → ℕ → ExitSlotSnapshot
unfolding slot_id
template_row index country now = record {
  id = slot_id (index + 1);
  country = country;
  enabled = true;
  proxy_port = base_proxy_port + index;
  tunnel_name = "tun" <> decimal index;
  route_table = base_route_table + index;
  mark = base_route_table + index;
  state = idle;
  entry_ip = "";
  egress_ip = "";
  current_node = end;
  check_result = end;
  last_error = "";
  failure_streak = 0;
  disabled_reason = "";
  generation = 0;
  updated_at = now;
}

-- The primary key and the four UNIQUE columns.
unfoldable pub conflicts : ExitSlotSnapshot → ExitSlotSnapshot → Bool
conflicts r q =
    r.id == q.id
    || (eqb r.proxy_port q.proxy_port
        || (r.tunnel_name == q.tunnel_name
            || (eqb r.route_table q.route_table || eqb r.mark q.mark)))

abbrev comes_before : String → String → Bool
comes_before a b = elim (compare a b) [ Ordering.lt ↦ true | _ ↦ false ]

-- Rows are kept in the order of their ids, which is the order that every SELECT asks for.
unfoldable pub insert_row : ExitSlotSnapshot → List ExitSlotSnapshot → List ExitSlotSnapshot
insert_row r [] = r ∷ []
insert_row r (q ∷ rows) =
    let rest = insert_row r rows in if comes_before r.id q.id then r ∷ q ∷ rows else q ∷ rest

unfoldable pub insert_or_ignore : ExitSlotSnapshot → List ExitSlotSnapshot → List ExitSlotSnapshot
unfolding conflicts insert_row
insert_or_ignore r rows = if any (conflicts r) rows then rows else insert_row r rows

unfoldable pub insert_template : ℕ → List String → ℕ → List ExitSlotSnapshot → List ExitSlotSnapshot
unfolding insert_or_ignore template_row
insert_template index [] now rows = rows
insert_template index (c ∷ cs) now rows =
    insert_template (index + 1) cs now (insert_or_ignore (template_row index c now) rows)

unfoldable pub migrate_rows : ℕ → List String → ℕ → List ExitSlotSnapshot → List ExitSlotSnapshot
unfolding slot_id update_rows
migrate_rows index [] now rows = rows
migrate_rows index (c ∷ cs) now rows = migrate_rows (index + 1) cs now (
    update_rows (slot_id index)
      (λ r. record r { country = c; generation = r.generation + 1; updated_at = now }) rows)

unfoldable pub migrate_countries : ℕ → ℕ → Exec Store Unit
unfolding migrate_rows is_allowed_country record_event
migrate_countries slot_count now s =
    if any (λ r. not (is_allowed_country r.country)) s.slots
    then record_event none "country_template_migrated" "migrated slots to strict JP/KR/US template"
        now (set_slots s (migrate_rows 1 (take slot_count slot_countries) now s.slots))
    else pure tt s

unfoldable pub initialize : ℕ → ℕ → Exec Store Unit
unfolding insert_template migrate_countries
initialize slot_count now =
    if not (leb 1 slot_count && leb slot_count max_slot_count)
    then raise (value_error ("slot_count must be between 1 and " <> decimal max_slot_count))
    else (do
      modify (λ s. set_slots s (insert_template 0 (take slot_count slot_countries) now s.slots))
      migrate_countries slot_count now)

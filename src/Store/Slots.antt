-- ===== src/Store/Slots.antt =====
-- vps/store.py, the operations on one row of `exit_slots`.
use kui_local_multi_exit.Prelude.{
  ℕ, ◌+◌, String, ◌<>◌, Bool, true, false, not, ◌&&◌, ◌||◌, Option, none, some, List, [], ◌∷◌, ◌==◌,
  ltb, leb, eqb, if◌then◌else◌,
}
use kui_local_multi_exit.Prelude.Text.{upper, prefix, decimal, is_country_code}
use kui_local_multi_exit.Prelude.Exec.{
  Exec, returned, value_error, modify, pure, raise, ◌>>=◌, ◌>>◌,
}
use kui_local_multi_exit.Json.{end}
use kui_local_multi_exit.Models.{ExitSlotSnapshot, idle, failed, disabled}
use kui_local_multi_exit.SlotConfig.{base_proxy_port, max_proxy_port}
use kui_local_multi_exit.Store.{Store, set_slots, update_rows, get_slot, record_event}

abbrev pub or_else {ℓ} : {A : Type ℓ} → Option A → A → A
or_else none a = a
or_else (some a) b = a

-- re.fullmatch("[A-Z]{2}|ANY", country)
unfoldable pub is_slot_country : String → Bool
unfolding is_country_code
is_slot_country c = is_country_code c || c == "ANY"

-- SELECT id FROM exit_slots WHERE proxy_port = ? AND id <> ?
unfoldable pub port_taken : ℕ → String → List ExitSlotSnapshot → Bool
port_taken port id [] = false
port_taken port id (r ∷ rows) =
    (eqb r.proxy_port port && not (r.id == id)) || port_taken port id rows

abbrev port_range : String
port_range =
    "proxy port must be between "
    <> (decimal base_proxy_port <> (" through " <> decimal max_proxy_port))

abbrev port_used : ℕ → String
port_used port = "proxy port " <> (decimal port <> " is already used")

abbrev pub next_country : Option String → ExitSlotSnapshot → String
next_country none current = current.country
next_country (some c) current = upper c

-- The checks of `validate_slot_update`, on the values that the row would get.
unfoldable pub check_slot_update :
    String → String → ℕ → ExitSlotSnapshot → Exec Store ExitSlotSnapshot
unfolding is_slot_country
check_slot_update id country port current s =
    if not (is_slot_country country)
    then raise (value_error "country must be a two-letter code or ANY") s
    else if not (leb base_proxy_port port && leb port max_proxy_port)
    then raise (value_error port_range) s
    else if port_taken port id s.slots
    then raise (value_error (port_used port)) s
    else pure current s

unfoldable pub validate_slot_update :
    String → Option String → Option ℕ → Exec Store ExitSlotSnapshot
unfolding get_slot check_slot_update
validate_slot_update id country proxy_port = do
  current ← get_slot id
  check_slot_update id (next_country country current) (or_else proxy_port current.proxy_port)
      current

-- The columns that `update_slot` writes, computed from the row that it read.
unfoldable pub updated_row :
    ExitSlotSnapshot
    → Option String
    → Option ℕ
    → Option Bool
    → ℕ
    → ExitSlotSnapshot
    → ExitSlotSnapshot
updated_row current country proxy_port enabled now row =
    let next_enabled = or_else enabled current.enabled in
    let reenabled = next_enabled && not current.enabled in
    record row {
      country = next_country country current;
      proxy_port = or_else proxy_port current.proxy_port;
      enabled = next_enabled;
      state = if reenabled then idle else if next_enabled then current.state else disabled;
      disabled_reason =
          if reenabled then "" else if next_enabled then current.disabled_reason else "manual";
      generation = row.generation + 1;
      updated_at = now;
    }

-- `UNIQUE` on `proxy_port`: SQLite refuses the write, and the handler turns that into ValueError.
unfoldable pub write_update : String → ℕ → (ExitSlotSnapshot → ExitSlotSnapshot) → Exec Store Unit
write_update id port write s =
    if port_taken port id s.slots
    then raise (value_error (port_used port)) s
    else (returned tt, set_slots s (update_rows id write s.slots))

unfoldable pub update_slot :
    String → Option String → Option ℕ → Option Bool → ℕ → Exec Store ExitSlotSnapshot
unfolding validate_slot_update updated_row write_update
update_slot id country proxy_port enabled now = do
  current ← validate_slot_update id country proxy_port
  write_update id (or_else proxy_port current.proxy_port)
      (updated_row current country proxy_port enabled now)
  get_slot id

unfoldable pub failed_row : ExitSlotSnapshot → String → ℕ → ℕ → ExitSlotSnapshot → ExitSlotSnapshot
failed_row current error max_failures now row =
    let failures = current.failure_streak + 1 in
    let enabled = ltb failures max_failures in
    record row {
      failure_streak = failures;
      last_error = prefix 1000 error;
      enabled = enabled;
      state = if enabled then failed else disabled;
      disabled_reason = if enabled then "" else "automatic_failure_limit";
      entry_ip = "";
      egress_ip = "";
      current_node = end;
      check_result = end;
      generation = row.generation + 1;
      updated_at = now;
    }

unfoldable pub record_failure : String → String → ℕ → ℕ → Exec Store ExitSlotSnapshot
unfolding failed_row get_slot record_event
record_failure id error max_failures now =
    if ltb max_failures 1 then raise (value_error "max_failures must be positive") else (do
      current ← get_slot id
      modify (λ s. set_slots s (update_rows id (failed_row current error max_failures now) s.slots))
      record_event (some id) "failure" error now
      get_slot id)

unfoldable pub enabled_row : ℕ → ExitSlotSnapshot → ExitSlotSnapshot
enabled_row now r = record r {
  enabled = true;
  state = idle;
  failure_streak = 0;
  disabled_reason = "";
  last_error = "";
  generation = r.generation + 1;
  updated_at = now;
}

unfoldable pub enable_slot : String → ℕ → Exec Store ExitSlotSnapshot
unfolding enabled_row get_slot record_event
enable_slot id now = do
  modify (λ s. set_slots s (update_rows id (enabled_row now) s.slots))
  record_event (some id) "enabled" "slot enabled manually" now
  get_slot id

-- ===== src/Store/Updating.antt =====
-- LocalStore.update_slot of vps/store.py: which updates succeed, and what they leave.
use kui_local_multi_exit.Prelude.{
  ℕ, ◌≡◌, String, ◌==◌, Bool, true, false, not, ◌&&◌, Option, some, leb, if◌then◌else◌,
}
use kui_local_multi_exit.Prelude.Exec.{Outcome, returned, succeeded}
use kui_local_multi_exit.Models.{ExitSlotSnapshot}
use kui_local_multi_exit.SlotConfig.{base_proxy_port, max_proxy_port}
use kui_local_multi_exit.Store.{Store, find_row, update_rows}
use kui_local_multi_exit.Store.Slots.{is_slot_country, or_else, port_taken, updated_row}

-- The country is a code or ANY, and the port is in the range of the template and free.
abbrev pub is_acceptable : String → String → ℕ → Store → Bool
is_acceptable id country port s =
    is_slot_country country
    && ((leb base_proxy_port port && leb port max_proxy_port) && not (port_taken port id s.slots))

-- The row is written and returned and the other rows stay, or an exception is raised and nothing changes.
abbrev pub Answers :
    Bool → String → ExitSlotSnapshot → Store → Outcome ExitSlotSnapshot × Store → Type 0
Answers true id q s r =
    (r.0 ≡ returned q)
    × ((j : String) → find_row j r.1.slots ≡ (if id == j then some q else find_row j s.slots))
Answers false id q s r = (succeeded r.0 ≡ false) × (r.1 ≡ s)

module _ (id : String) (now : ℕ) (s : Store) (c : Option String) (p : Option ℕ) (b : Option Bool)
    (r : ExitSlotSnapshot) (e : find_row id s.slots ≡ some r) where
  abbrev port : ℕ
  port = or_else p r.proxy_port

  abbrev row : ExitSlotSnapshot
  row = updated_row r c p b now r

  abbrev after : Store
  after = record s { slots = update_rows id (updated_row r c p b now) s.slots }

-- ===== src/Store.antt =====
-- vps/store.py: the tables that the exits use. A table is the list of its rows, an `UPDATE … WHERE
-- id = ?` rewrites the rows with that id, and `int(time.time())` is the argument `now`, one instant
-- for the whole of an operation. The tables of the panel (vps, nodes, users, subscriptions) are those
-- of the module Panel.
pub mod Slots
pub mod Runtime
pub mod Template
pub mod History
pub mod Rows
pub mod Generation
pub mod Fencing
pub mod Ports
pub mod Updating
pub mod Streak
pub mod Fresh
use kui_local_multi_exit.Prelude.{
  ℕ, ◌+◌, ◌≡◌, String, Bool, true, false, Option, none, some, List, [], ◌∷◌, ◌==◌, first, any,
  if◌then◌else◌, suc, ◌++◌,
}
use kui_local_multi_exit.Prelude.Dict.{Dict}
use kui_local_multi_exit.Prelude.Text.{prefix}
use kui_local_multi_exit.Prelude.Exec.{Exec, returned, key_error, pure, raise}
use kui_local_multi_exit.Prelude.Int.{ℤ}
use kui_local_multi_exit.Models.{ExitSlotSnapshot}
use kui_local_multi_exit.Json.{Fields}

pub record Event : Type 0 where
  pub id : ℕ
  pub slot_id : Option String
  pub kind : String
  pub message : String
  pub created_at : ℕ

pub record CheckRow : Type 0 where
  pub id : ℕ
  pub slot_id : String
  pub generation : ℕ
  pub result : Fields
  pub created_at : ℕ

-- An OpenVPN node, as the sources harvest it and the pool keeps it. `harvested_at` is in
-- milliseconds.
pub record Node : Type 0 where
  pub ip : String
  pub country : String
  pub ping : ℤ
  pub score : ℤ
  pub config : String
  pub harvested_at : ℕ
  pub source : String
  pub username : String
  pub password : String
  pub provider_id : String

pub record VpnRow : Type 0 where
  pub node : Node
  pub penalty : ℕ
  pub updated_at : ℕ
  pub first_seen_at : ℕ
  pub last_seen_at : ℕ

-- Events and check results are kept oldest first; the next ids are SQLite's AUTOINCREMENT counters.
pub record Store : Type 0 where
  pub slots : List ExitSlotSnapshot
  pub events : List Event
  pub next_event : ℕ
  pub checks : List CheckRow
  pub next_check : ℕ
  pub settings : Dict String
  pub vpn_nodes : List VpnRow

abbrev pub empty : Store
empty = record {
  slots = [];
  events = [];
  next_event = 1;
  checks = [];
  next_check = 1;
  settings = [];
  vpn_nodes = [];
}

-- SELECT * FROM exit_slots WHERE id = ?
unfoldable pub find_row : String → List ExitSlotSnapshot → Option ExitSlotSnapshot
find_row id [] = none
find_row id (r ∷ rows) = let rest = find_row id rows in if r.id == id then some r else rest

-- UPDATE exit_slots SET … WHERE id = ?
unfoldable pub update_rows :
    String → (ExitSlotSnapshot → ExitSlotSnapshot) → List ExitSlotSnapshot → List ExitSlotSnapshot
update_rows id f [] = []
update_rows id f (r ∷ rows) = (if r.id == id then f r else r) ∷ update_rows id f rows

abbrev pub set_slots : Store → List ExitSlotSnapshot → Store
set_slots s rows = record s { slots = rows }

unfoldable pub list_slots : Store → List ExitSlotSnapshot
list_slots s = s.slots

unfoldable pub get_slot : String → Exec Store ExitSlotSnapshot
get_slot id s = elim (find_row id s.slots) [ none ↦ raise (key_error id) s | some r ↦ pure r s ]

-- INSERT INTO events
unfoldable pub record_event : Option String → String → String → ℕ → Exec Store Unit
record_event slot_id kind message now s = (
  returned tt,
  record s {
    events =
        s.events
        ++ record {
          id = s.next_event;
          slot_id = slot_id;
          kind = prefix 100 kind;
          message = prefix 2000 message;
          created_at = now;
        }
          ∷ [];
    next_event = suc s.next_event;
  },
)

-- ===== src/SlotConfig.antt =====
-- vps/slot_config.py: slot identifiers, and the bounds of the slot template.
use kui_local_multi_exit.Prelude.{
  ℕ, ◌+◌, ◌-◌, String, ◌<>◌, Bool, false, ◌&&◌, Option, none, some, leb,
}
use kui_local_multi_exit.Prelude.Text.{digits, decimal_02, after_prefix}

abbrev pub legacy_slot_count : ℕ
legacy_slot_count = 24

abbrev pub max_slot_count : ℕ
max_slot_count = 34

abbrev pub flex_slot_start : ℕ
flex_slot_start = legacy_slot_count + 1

abbrev pub base_proxy_port : ℕ
base_proxy_port = 7920

abbrev pub max_proxy_port : ℕ
max_proxy_port = base_proxy_port + max_slot_count - 1

abbrev pub base_route_table : ℕ
base_route_table = 200

-- re.fullmatch("exit-(\d+)", slot_id) and the number that it captures.
unfoldable pub slot_number : String → Option ℕ
unfolding digits after_prefix
slot_number slot_id = elim (after_prefix "exit-" slot_id) [ none ↦ none | some s ↦ digits s ]

unfoldable pub is_valid_exit_slot_id : String → Bool
unfolding slot_number
is_valid_exit_slot_id slot_id = elim (slot_number slot_id) [
  | none ↦ false
  | some number ↦ leb 1 number && leb number max_slot_count
]

unfoldable pub is_connectivity_only_slot : String → Bool
unfolding slot_number
is_connectivity_only_slot slot_id = elim (slot_number slot_id) [
  | none ↦ false
  | some number ↦ leb flex_slot_start number && leb number max_slot_count
]

-- f"exit-{n:02d}", the name that the store and the bridges give to the n-th slot.
unfoldable pub slot_id : ℕ → String
unfolding decimal_02
slot_id n = "exit-" <> decimal_02 n

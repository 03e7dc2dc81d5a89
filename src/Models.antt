-- ===== src/Models.antt =====
-- vps/models.py: the record of a slot, and the states of its `state` column (`VALID_STATES` of
-- vps/store.py).
use kui_local_multi_exit.Prelude.{
  ℕ, String, Bool, true, false, Option, none, some, ◌==◌, if◌then◌else◌,
}
use kui_local_multi_exit.Json.{Fields}

pub data SlotState : Type 0 where
  idle starting connecting ready degraded failed disabled : SlotState

-- The state that a text names, if it is one of `VALID_STATES`.
unfoldable pub state_named : String → Option SlotState
state_named s =
    if s == "idle"
    then some idle
    else if s == "starting"
    then some starting
    else if s == "connecting"
    then some connecting
    else if s == "ready"
    then some ready
    else if s == "degraded"
    then some degraded
    else if s == "failed"
    then some failed
    else if s == "disabled"
    then some disabled
    else none

unfoldable pub state_name : SlotState → String
state_name idle = "idle"
state_name starting = "starting"
state_name connecting = "connecting"
state_name ready = "ready"
state_name degraded = "degraded"
state_name failed = "failed"
state_name disabled = "disabled"

pub record ExitSlotSnapshot : Type 0 where
  pub id : String
  pub country : String
  pub enabled : Bool
  pub proxy_port : ℕ
  pub tunnel_name : String
  pub route_table : ℕ
  pub mark : ℕ
  pub state : SlotState
  pub entry_ip : String
  pub egress_ip : String
  pub current_node : Fields
  pub check_result : Fields
  pub last_error : String
  pub failure_streak : ℕ
  pub disabled_reason : String
  pub generation : ℕ
  pub updated_at : ℕ

-- state in {"ready", "degraded"}
abbrev pub is_serving : SlotState → Bool
is_serving ready = true
is_serving degraded = true
is_serving idle = false
is_serving starting = false
is_serving connecting = false
is_serving failed = false
is_serving disabled = false

-- state in {"connecting", "ready", "degraded"}
abbrev pub is_active : SlotState → Bool
is_active connecting = true
is_active ready = true
is_active degraded = true
is_active idle = false
is_active starting = false
is_active failed = false
is_active disabled = false

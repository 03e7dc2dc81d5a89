-- ===== src/SocksBridge.antt =====
-- vps/socks5_bridge.py: the configuration that publishes each slot on the host.
pub mod Paths
use kui_local_multi_exit.Prelude.{
  ℕ, zero, suc, ◌+◌, ◌-◌, String, ◌<>◌, ◌==◌, Bool, true, false, not, ◌&&◌, ◌||◌, Option, none,
  some, List, [], ◌∷◌, ◌++◌, map, leb, if◌then◌else◌,
}
use kui_local_multi_exit.Prelude.Dict
use kui_local_multi_exit.Prelude.Dict.{Dict}
use kui_local_multi_exit.Prelude.Int.{ℤ, pos, negsuc}
use kui_local_multi_exit.Prelude.Text.{decimal, int, is_empty, lower, strip}
use kui_local_multi_exit.Prelude.Exec.{Outcome, returned, raised, value_error}
use kui_local_multi_exit.SlotConfig.{max_slot_count, slot_id, slot_number}

pub record User : Type 0 where
  pub username : String
  pub password : String

-- An inbound of type "mixed" that listens on 0.0.0.0.
pub record Inbound : Type 0 where
  pub tag : String
  pub listen_port : ℕ
  pub users : List User

-- The outbounds; `urltest` has the constant settings of the source.
pub data Outbound : Type 0 where
  urltest : String → List String → Outbound
  socks : String → String → ℕ → User → Outbound
  direct : String → Outbound

-- {"inbound": …, "outbound": …}
pub record Rule : Type 0 where
  pub inbound : String
  pub outbound : String

pub record Config : Type 0 where
  pub inbounds : List Inbound
  pub outbounds : List Outbound
  pub rules : List Rule
  pub final : String

-- `_env_int`
unfoldable pub env_int : Dict String → String → ℕ → ℕ → ℕ → Outcome ℕ
env_int environ name default minimum maximum =
    let raw = strip (elim (Dict.get name environ) as (λ x. String) [ none ↦ "" | some s ↦ s ]) in
    if is_empty raw then returned default else elim (int raw) [
      | none ↦ raised (value_error (name <> " must be an integer"))
      | some (negsuc n) ↦ raised (value_error (name <> " is out of bounds"))
      | some (pos n) ↦
          if leb minimum n && leb n maximum
          then returned n
          else raised (value_error (name <> " is out of bounds"))
    ]

-- [f"exit-{index:02d}" for index in range(1, slot_count + 1)]
abbrev pub slots_from : ℕ → ℕ → List String
slots_from zero first = []
slots_from (suc n) first = slot_id first ∷ slots_from n (suc first)

abbrev or_one : Option ℕ → ℕ
or_one none = 1
or_one (some zero) = 1
or_one (some (suc n)) = suc n

-- int(socks_base_port) + (slot_number(sid) or 1) - 1
abbrev pub port_of : ℕ → String → ℕ
port_of base sid = base + or_one (slot_number sid) - 1

abbrev pub auto_inbound : ℕ → User → Inbound
auto_inbound port user = record { tag = "auto-in"; listen_port = port; users = user ∷ [] }

abbrev pub slot_inbound : ℕ → User → String → Inbound
slot_inbound base user sid = record { tag = sid; listen_port = port_of base sid; users = user ∷ [] }

abbrev pub slot_outbound : String → ℕ → User → String → Outbound
slot_outbound host base user sid = socks sid host (port_of base sid) user

abbrev pub slot_rule : String → Rule
slot_rule sid = record { inbound = sid; outbound = sid }

unfoldable pub build_socks5_bridge_config : ℤ → String → ℕ → ℕ → User → User → Outcome Config
build_socks5_bridge_config (negsuc n) host base auto_port public internal =
    raised (value_error "KUI_SLOT_COUNT must be between 1 and 34")
build_socks5_bridge_config (pos n) host base auto_port public internal =
    let slots = slots_from n 1 in
    if not (leb 1 n && leb n max_slot_count)
    then raised (value_error "KUI_SLOT_COUNT must be between 1 and 34")
    else if is_empty public.username || is_empty public.password
    then raised (value_error "KUI_MANAGEMENT_USER and KUI_MANAGEMENT_PASSWORD are required")
    else returned (record {
      inbounds = auto_inbound auto_port public ∷ map (slot_inbound base public) slots;
      outbounds =
          urltest "auto" slots
          ∷ (map (slot_outbound host base internal) slots ++ (direct "direct" ∷ []));
      rules = map slot_rule slots;
      final = "auto";
    })

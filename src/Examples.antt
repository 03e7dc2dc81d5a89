-- ===== src/Examples.antt =====
-- Test data for the examples: two slots, two nodes and a calm outside.
pub mod Storage
pub mod Pools
pub mod Exits
pub mod Network
pub mod Worker
pub mod Relay
pub mod PanelData
use kui_local_multi_exit.Prelude.{
  ℕ, String, Bool, true, false, Option, none, some, List, [], ◌∷◌, inl,
}
use kui_local_multi_exit.Prelude.Int.{pos}
use kui_local_multi_exit.Json.{end, field, str, bool}
use kui_local_multi_exit.Json.{Fields}
use kui_local_multi_exit.Models.{ExitSlotSnapshot, SlotState, ready, failed}
use kui_local_multi_exit.NodePool.{NodePool, replace}
use kui_local_multi_exit.NodePool
use kui_local_multi_exit.Outside.{Outside, Listener, RunResult}
use kui_local_multi_exit.Store
use kui_local_multi_exit.Store.{Store, Node}
use kui_local_multi_exit.ExitManager.{Manager, SlotRuntime, fresh_runtime}

abbrev pub slot_one : ExitSlotSnapshot
slot_one = record {
  id = "01";
  country = "JP";
  enabled = true;
  proxy_port = 7920;
  tunnel_name = "tun01";
  route_table = 101;
  mark = 101;
  state = ready;
  entry_ip = "203.0.113.7";
  egress_ip = "203.0.113.8";
  current_node = end;
  check_result = end;
  last_error = "";
  failure_streak = 0;
  disabled_reason = "";
  generation = 4;
  updated_at = 1000;
}

abbrev pub slot_two : ExitSlotSnapshot
slot_two = record slot_one {
  id = "02";
  country = "ANY";
  proxy_port = 7921;
  tunnel_name = "tun02";
  route_table = 102;
  mark = 102;
  state = failed;
  entry_ip = "";
  egress_ip = "";
  failure_streak = 2;
}

abbrev pub two_slots : Store
two_slots = record Store.empty { slots = slot_one ∷ slot_two ∷ [] }

abbrev pub node_of : String → String → ℕ → Node
node_of ip country ping = record {
  ip = ip;
  country = country;
  ping = pos ping;
  score = pos 100;
  config = "client";
  harvested_at = 0;
  source = "vpngate";
  username = "";
  password = "";
  provider_id = "";
}

abbrev pub near_node : Node
near_node = node_of "198.51.100.1" "JP" 20

abbrev pub far_node : Node
far_node = node_of "198.51.100.2" "JP" 90

abbrev pub two_nodes : NodePool
two_nodes = record {
  nodes = ("198.51.100.1", near_node) ∷ ("198.51.100.2", far_node) ∷ [];
  penalties = [];
  retry_after = [];
}

abbrev pub reply_of : String → RunResult
reply_of body = record { returncode = pos 0; stdout = body; stderr = "" }

-- Every command succeeds; no thread, timer or process has ended.
abbrev pub calm : Outside
calm = record {
  run = λ t c. reply_of "";
  curl = λ t c. inl (reply_of "204");
  environ = [];
  credentials = λ t. none;
  traceback = λ t e. "Traceback";
  listener_starts = λ t l. true;
  listener_ready = λ t l. true;
  poll = λ t p. none;
  terminates = λ t p. true;
  worker_alive = λ t w. true;
  timer_alive = λ t timer. true;
  now = λ t. 1000000;
  mono = λ t. 500000;
}

-- The requests fail, for the host as for the exits.
abbrev pub offline : Outside
offline = record calm {
  curl = λ t c. inl (record { returncode = pos 6; stdout = "000"; stderr = "dns" });
}

abbrev pub listener_one : Listener
listener_one = record {
  slot_id = "01";
  host = "0.0.0.0";
  port = 7920;
  interface = "tun01";
  mark = 101;
  serial = 1;
}

abbrev pub serving_runtime : SlotRuntime
serving_runtime = record fresh_runtime {
  process = some 77;
  listener = some listener_one;
  worker = some 5;
}

abbrev pub manager_one : Manager
manager_one = record {
  store = two_slots;
  pool = two_nodes;
  runtimes = ("01", serving_runtime) ∷ ("02", fresh_runtime) ∷ [];
  reserved = ("01", "203.0.113.7") ∷ [];
  shutdown = false;
  start_workers = true;
  dial_slots = 2;
  reference_expires = 0;
  reference_result = end;
  trace = [];
  next_serial = 9;
}

abbrev pub japan : Fields
japan = field "country" (str "jp") end

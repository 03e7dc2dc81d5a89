-- ===== src/Examples/Worker.antt =====
-- Examples at the checks of a connection attempt.
use kui_local_multi_exit.Prelude.{
  ℕ, ◌≡◌, refl, String, Bool, true, false, Option, some, none, List, [], ◌∷◌,
}
use kui_local_multi_exit.Prelude.Text.{is_empty}
use kui_local_multi_exit.Prelude.Exec.{returned}
use kui_local_multi_exit.Json.{Fields, end, field, str, obj}
use kui_local_multi_exit.Outside.{Trace}
use kui_local_multi_exit.ExitManager.Egress.{admit_egress}
use kui_local_multi_exit.ExitManager.Egress.Locked.{IsVouched, admitted_egress-IsVouched}
use kui_local_multi_exit.Models.{is_serving, ExitSlotSnapshot}
use kui_local_multi_exit.Store.{find_row}
use kui_local_multi_exit.ExitManager.{Manager}
use kui_local_multi_exit.ExitManager.Nodes.{select_node}
use kui_local_multi_exit.ExitManager.Readiness.{commit_ready}
use kui_local_multi_exit.ExitManager.Readiness.AnyCountry.{any_slot_uncommitted}
use kui_local_multi_exit.ExitManager.Worker.Ended.{Leaves, dispose-Leaves}
use kui_local_multi_exit.ExitManager.Worker.{dispose, conclude_dial}
use kui_local_multi_exit.ExitManager.Worker.Settled.{Settled, conclude_dial-Settled}
use kui_local_multi_exit.Examples.{calm, manager_one, slot_one, near_node}

abbrev no_geo : Trace → String → Fields
no_geo t ip = end

abbrev home_in_japan : Fields
home_in_japan = field "status" (str "checked") (
    field "egress_type" (str "residential")
      (field "raw" (obj (field "geo" (obj (field "country_code" (str "jp") end)) end)) end))

abbrev home_of : Trace → String → Fields
home_of t ip = home_in_japan

egress_admitted :
    (admit_egress calm 5 no_geo home_of slot_one 4 "198.51.100.1" "198.51.100.9" manager_one).0
    ≡ returned (some home_in_japan)
unfolding admit_egress kui_local_multi_exit.ExitManager.Health.is_stale
    kui_local_multi_exit.ExitManager.runtime kui_local_multi_exit.Prelude.Dict.get
    kui_local_multi_exit.ExitManager.worker_is_stale kui_local_multi_exit.Store.get_slot
    kui_local_multi_exit.Store.find_row kui_local_multi_exit.SlotConfig.is_connectivity_only_slot
    kui_local_multi_exit.ExitManager.Egress.residential_verdict
    kui_local_multi_exit.Prelude.Text.upper kui_local_multi_exit.Json.lookup
    kui_local_multi_exit.Json.lookup_obj kui_local_multi_exit.Json.truthy
    kui_local_multi_exit.ExitManager.Nodes.is_exit_country
    kui_local_multi_exit.Prelude.Text.is_country_code kui_local_multi_exit.Prelude.Text.lower
egress_admitted = refl

admitted_egress-IsVouched_example :
    (is_empty "198.51.100.9" ≡ false) × IsVouched calm no_geo home_of slot_one "198.51.100.9"
admitted_egress-IsVouched_example =
    admitted_egress-IsVouched calm 5 no_geo home_of slot_one 4 "198.51.100.1" "198.51.100.9"
      manager_one home_in_japan egress_admitted

-- A manager whose first slot takes any country.
abbrev any_slot : ExitSlotSnapshot
any_slot = record slot_one { country = "ANY" }

abbrev any_manager : Manager
any_manager = record manager_one { store = record manager_one.store { slots = any_slot ∷ [] } }

near_selected : select_node false "ANY" [] 1000 500000 any_manager.pool ≡ some near_node
unfolding select_node kui_local_multi_exit.ExitManager.Nodes.select_loop
    kui_local_multi_exit.NodePool.select kui_local_multi_exit.NodePool.is_candidate
    kui_local_multi_exit.ExitManager.Nodes.is_exit_country kui_local_multi_exit.Prelude.Text.upper
    kui_local_multi_exit.ExitManager.Nodes.node_eligible kui_local_multi_exit.Prelude.Dict.get
near_selected = refl

abbrev from_japan : Fields
from_japan = field "country" (str "JP") end

any_slot_uncommitted_example :
    commit_ready calm "01" 4 "198.51.100.1" "198.51.100.9" from_japan end none any_manager
    ≡ (returned false, any_manager)
unfolding find_row kui_local_multi_exit.Json.lookup_str
any_slot_uncommitted_example =
    any_slot_uncommitted calm "01" 4 "198.51.100.1" "198.51.100.9" from_japan end none any_manager
      any_slot false [] 1000 500000 near_node refl refl near_selected refl

conclude_dial-Settled_example : Settled slot_one manager_one (
    conclude_dial calm 5 slot_one 4 "198.51.100.1" "198.51.100.9" from_japan home_in_japan
      manager_one)
conclude_dial-Settled_example =
    conclude_dial-Settled calm 5 slot_one 4 manager_one "198.51.100.1" "198.51.100.9" from_japan
      home_in_japan

dispose-Leaves_example :
    Leaves calm 5 slot_one
      (some 99)
      manager_one
      false
      (is_serving slot_one.state)
      (dispose calm 5 slot_one 3 (some 99) manager_one)
unfolding find_row
dispose-Leaves_example = dispose-Leaves calm 5 slot_one (some 99) manager_one 3 slot_one refl

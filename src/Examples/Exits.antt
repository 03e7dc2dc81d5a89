-- ===== src/Examples/Exits.antt =====
-- Examples at the exits: routing, lifecycle, readiness, health and start.
use kui_local_multi_exit.Prelude.{
  ℕ, suc, ◌+◌, ◌*◌, ◌≡◌, refl, String, Bool, true, false, Option, none, some, List, [], ◌∷◌, ◌≤◌,
  ◌<◌, ◌⊎◌, min, arith, ◌==◌,
}
use kui_local_multi_exit.Prelude.Dict
use kui_local_multi_exit.Prelude.Exec.{returned, succeeded}
use kui_local_multi_exit.Json.{end, lookup_true, Fields, field, str}
use kui_local_multi_exit.Models.{ExitSlotSnapshot}
use kui_local_multi_exit.Store.{find_row}
use kui_local_multi_exit.InternalProxy.{load_credentials, load_or_create, created_credentials_stay}
use kui_local_multi_exit.Vpngate.{attempt_of}
use kui_local_multi_exit.Vpngate.Verdicts.{accepted_iff_explicit}
use kui_local_multi_exit.Routing.{install}
use kui_local_multi_exit.Routing.Install.{Installed, install_all_or_cleanup}
use kui_local_multi_exit.RuntimeProfile.{
  RuntimeProfile, MemoryFiles, Env, resolve_runtime_profile, env_text, auto_profile,
  detect_memory_limit,
}
use kui_local_multi_exit.RuntimeProfile.Bounds.{IsUnset}
use kui_local_multi_exit.ExitManager.{fresh_runtime, new_manager}
use kui_local_multi_exit.ExitManager.Startup.{small_slot_count_refused}
use kui_local_multi_exit.ExitManager.Lifecycle.{stop_slot}
use kui_local_multi_exit.ExitManager.Lifecycle.StopOrder.{ListenerFirst, listener_stops_first}
use kui_local_multi_exit.ExitManager.Readiness.{commit_ready}
use kui_local_multi_exit.ExitManager.Readiness.Commit.{Committed, current_commit_lands}
use kui_local_multi_exit.ExitManager.Diagnosis.{handle_probe_failure, process_gone, reference}
use kui_local_multi_exit.ExitManager.Diagnosis.Shared.{Retained, outage_keeps_exits}
use kui_local_multi_exit.ExitManager.StaleWorker.Acts.{Act, commits, concludes, fails, ends}
use kui_local_multi_exit.ExitManager.Lifecycle.Stopped.{IsStopped, stop_slot-IsStopped}
use kui_local_multi_exit.Examples.{
  slot_one, two_slots, calm, offline, listener_one, serving_runtime, manager_one, japan, reply_of,
}

install_all_or_cleanup_example :
    Installed calm slot_one "198.51.100.1" "192.0.2.1" "eth0" []
      (install calm slot_one "198.51.100.1" "192.0.2.1" "eth0" [])
install_all_or_cleanup_example =
    install_all_or_cleanup calm slot_one "198.51.100.1" "192.0.2.1" "eth0" []

listener_stops_first_example :
    ListenerFirst serving_runtime listener_one [] (stop_slot calm 5 "01" manager_one).1.trace
unfolding Dict.get
listener_stops_first_example =
    listener_stops_first calm 5 "01" manager_one serving_runtime listener_one refl refl

current_commit_lands_example :
    ((commit_ready calm "01" 4 "198.51.100.1" "198.51.100.9" japan end
        (some listener_one)
        manager_one).0
      ≡ returned true)
    × ((p : ExitSlotSnapshot) × (find_row "01"
            (commit_ready calm "01" 4 "198.51.100.1" "198.51.100.9" japan end
              (some listener_one)
              manager_one).1.store.slots
          ≡ some p)
        × Committed 4 "198.51.100.1" "198.51.100.9" japan p)
unfolding find_row Dict.get kui_local_multi_exit.Json.lookup_str
    kui_local_multi_exit.Prelude.Text.upper
current_commit_lands_example =
    current_commit_lands calm "01" 4 "198.51.100.1" "198.51.100.9" japan end listener_one
      manager_one serving_runtime slot_one refl refl refl refl refl refl

host_is_down : lookup_true "ok" (reference offline 5 manager_one).1.reference_result ≡ false
unfolding reference lookup_true kui_local_multi_exit.Vpngate.probe_health_reference
host_is_down = refl

process_lives : process_gone offline 5 serving_runtime (reference offline 5 manager_one).1 ≡ false
unfolding reference
process_lives = refl

outage_keeps_exits_example :
    Retained manager_one (handle_probe_failure offline 5 "01" 4 "no answer" manager_one).1
unfolding Dict.get
outage_keeps_exits_example =
    outage_keeps_exits offline 5 "01" 4 "no answer" manager_one serving_runtime refl host_is_down
      process_lives

accepted_iff_explicit_example :
    (attempt_of "https://claude.ai" (reply_of "403") 12).accepted
    ≡ ((attempt_of "https://claude.ai" (reply_of "403") 12).classification == "explicit_response")
accepted_iff_explicit_example = accepted_iff_explicit "https://claude.ai" (reply_of "403") 12

created_credentials_stay_example :
    (load_credentials [] (load_or_create [] "token" none).1 ≡ (load_or_create [] "token" none).0)
    × (load_or_create [] "other" (load_or_create [] "token" none).1
        ≡ load_or_create [] "token" none)
created_credentials_stay_example = created_credentials_stay [] "token" "other" none refl

abbrev no_files : MemoryFiles
no_files = record { cgroup_v2 = none; cgroup_v1 = none; cgroup_v1_root = none; meminfo = none }

abbrev one_slot : Env
one_slot = ("KUI_SLOT_COUNT", "1") ∷ []

abbrev one_slot_profile : RuntimeProfile
one_slot_profile = record {
  slot_count = 1;
  dial_workers = 2;
  max_connections = 64;
  memory_bytes = none;
  memory_source = "unknown";
}

one_slot_resolved : resolve_runtime_profile one_slot no_files ≡ returned one_slot_profile
unfolding resolve_runtime_profile kui_local_multi_exit.RuntimeProfile.slot_count_setting env_text
    kui_local_multi_exit.Prelude.Text.lower kui_local_multi_exit.RuntimeProfile.bounded
    kui_local_multi_exit.Prelude.Text.int kui_local_multi_exit.RuntimeProfile.parse_override
    auto_profile detect_memory_limit
one_slot_resolved = refl

workers-IsUnset : IsUnset "KUI_DIAL_WORKERS" one_slot
unfolding env_text
workers-IsUnset = refl

fewer_slots : 1 < (auto_profile (detect_memory_limit no_files).0).workers
unfolding auto_profile detect_memory_limit
fewer_slots = omega arith

small_slot_count_refused_example : succeeded (new_manager two_slots (some 1) (some 2) true) ≡ false
small_slot_count_refused_example =
    small_slot_count_refused one_slot no_files one_slot_profile two_slots true one_slot_resolved
      workers-IsUnset fewer_slots

abbrev late_acts : List Act
late_acts =
    commits "198.51.100.1" "198.51.100.9" japan end none
    ∷ concludes "198.51.100.1" "198.51.100.9" japan end
    ∷ fails "lost" "198.51.100.1" true
    ∷ ends
    ∷ []

slot_one_stops : (stop_slot calm 5 "01" manager_one).0 ≡ returned tt
unfolding stop_slot Dict.get Dict.put Dict.pop find_row
    kui_local_multi_exit.ExitManager.require_managed_slot
    kui_local_multi_exit.ExitManager.is_managed_slot kui_local_multi_exit.ExitManager.runtime
    kui_local_multi_exit.Store.get_slot kui_local_multi_exit.ExitManager.change_runtime
    kui_local_multi_exit.ExitManager.put_runtime kui_local_multi_exit.Store.Slots.update_slot
    kui_local_multi_exit.Store.Slots.port_taken kui_local_multi_exit.Store.update_rows
    kui_local_multi_exit.ExitManager.cancel_timer kui_local_multi_exit.ExitManager.stop_listener
    kui_local_multi_exit.ExitManager.terminate_process
    kui_local_multi_exit.ExitManager.Nodes.release_node kui_local_multi_exit.Routing.cleanup
    kui_local_multi_exit.Models.state_named kui_local_multi_exit.Prelude.Text.contains
    kui_local_multi_exit.Prelude.Text.decimal kui_local_multi_exit.Prelude.Text.decimal_fuel
    kui_local_multi_exit.Prelude.Text.is_country_code kui_local_multi_exit.Prelude.Text.join
    kui_local_multi_exit.Prelude.Text.lstrip kui_local_multi_exit.Prelude.Text.rstrip
    kui_local_multi_exit.Prelude.Text.strip kui_local_multi_exit.Prelude.Text.upper
    kui_local_multi_exit.Routing.execute kui_local_multi_exit.Routing.failure_detail
    kui_local_multi_exit.Routing.is_tolerated kui_local_multi_exit.Store.Runtime.assign_value
    kui_local_multi_exit.Store.Runtime.assigned_row
    kui_local_multi_exit.Store.Runtime.check_assignments
    kui_local_multi_exit.Store.Runtime.set_runtime
    kui_local_multi_exit.Store.Slots.check_slot_update
    kui_local_multi_exit.Store.Slots.is_slot_country kui_local_multi_exit.Store.Slots.updated_row
    kui_local_multi_exit.Store.Slots.validate_slot_update
    kui_local_multi_exit.Store.Slots.write_update
slot_one_stops = refl

stop_slot-IsStopped_example : IsStopped "01" (stop_slot calm 5 "01" manager_one).1
stop_slot-IsStopped_example = stop_slot-IsStopped calm 5 "01" manager_one slot_one_stops

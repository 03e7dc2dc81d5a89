-- ===== src/ExitManager/Startup.antt =====
-- vps/entrypoint.py gives the resolved profile to ExitManager of vps/exit_manager.py: which profiles
-- the manager refuses.
use kui_local_multi_exit.Prelude.{
  ℕ, ◌<◌, ◌≡◌, String, Bool, false, Option, none, some, eq_iff, arith,
}
use kui_local_multi_exit.Prelude.Exec.{returned, succeeded}
use kui_local_multi_exit.RuntimeProfile.{
  RuntimeProfile, MemoryFiles, Env, env_text, auto_profile, detect_memory_limit, parse_override,
  slot_count_setting, resolve_runtime_profile, max_proxy_connections,
}
use kui_local_multi_exit.RuntimeProfile.Bounds.{bind_returned, IsUnset, automatic}
use kui_local_multi_exit.Store.{Store}
use kui_local_multi_exit.ExitManager.{new_manager}

unset_override :
    (env : Env) (name : String) (lo hi : ℕ) (w : Option ℕ)
    → IsUnset name env
    → parse_override env name lo hi ≡ returned w
    → w ≡ none
unfolding parse_override
unset_override env name lo hi w u h = ground (arith, (eq_iff (env_text name env) "").1 u)

default_workers :
    (env : Env) (fs : MemoryFiles) (p : RuntimeProfile)
    → resolve_runtime_profile env fs ≡ returned p
    → IsUnset "KUI_DIAL_WORKERS" env
    → p.dial_workers ≡ (auto_profile (detect_memory_limit fs).0).workers
unfolding resolve_runtime_profile
default_workers env fs p h u =
    let (n, es, h₁) = bind_returned (slot_count_setting env (automatic env fs p).slots) _ p h in
    let (w, ew, h₂) = bind_returned (parse_override env "KUI_DIAL_WORKERS" 1 n) _ p h₁ in
    let (c, ec, h₃) =
      bind_returned (parse_override env "PROXY_MAX_CONNECTIONS" 1 max_proxy_connections) _ p h₂ in
    ground (arith, unset_override env "KUI_DIAL_WORKERS" 1 n w u ew)

-- A profile whose slot count is set below the number of dial workers that the memory suggests is
-- refused by the manager, whatever the store holds: the default of the workers is not lowered to the
-- slot count. The variable for the workers is unset.
pub small_slot_count_refused :
    (env : Env) (fs : MemoryFiles) (p : RuntimeProfile) (s : Store) (start_workers : Bool)
    → resolve_runtime_profile env fs ≡ returned p
    → IsUnset "KUI_DIAL_WORKERS" env
    → p.slot_count < (auto_profile (detect_memory_limit fs).0).workers
    → succeeded (new_manager s (some p.slot_count) (some p.dial_workers) start_workers) ≡ false
unfolding new_manager
small_slot_count_refused env fs p s start_workers h u few =
    ground (arith, default_workers env fs p h u)

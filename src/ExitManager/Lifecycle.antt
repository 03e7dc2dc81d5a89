-- ===== src/ExitManager/Lifecycle.antt =====
-- vps/exit_manager.py: starting, stopping and failing a slot. `me` is the thread that calls. Between
-- the two locked parts of `start_slot` and of `stop_slot` no other thread runs here.
pub mod StopSteps
pub mod StopOrder
pub mod Stopped
pub mod Retry
use kui_local_multi_exit.Prelude.{
  ℕ, suc, ◌+◌, ◌-◌, ◌*◌, ◌^◌, String, ◌<>◌, Bool, true, false, not, ◌&&◌, ◌||◌, Option, none, some,
  List, [], ◌∷◌, ◌==◌, eqb, min, if◌then◌else◌,
}
use kui_local_multi_exit.Prelude.Text.{is_empty}
use kui_local_multi_exit.Prelude.Exec.{
  Exec, returned, value_error, pure, raise, gets, modify, ◌>>=◌, ◌>>◌,
}
use kui_local_multi_exit.Json.{end}
use kui_local_multi_exit.Models.{ExitSlotSnapshot, SlotState, is_serving, is_active, failed}
use kui_local_multi_exit.ExitManager.{
  Manager, SlotRuntime, require_managed_slot, runtime, put_runtime, change_runtime, on_store,
  on_trace, emit, get_slot, record_event, when, for_some, cancel_timer, stop_listener,
  terminate_process,
}
use kui_local_multi_exit.ExitManager.Nodes.{release_node}
use kui_local_multi_exit.NodePool
use kui_local_multi_exit.Outside.{
  Outside, Timer, worker_started, worker_joined, timer_started, timer_cancelled,
}
use kui_local_multi_exit.Routing
use kui_local_multi_exit.Store.Slots
use kui_local_multi_exit.Store.Runtime
use kui_local_multi_exit.Store.Runtime.{
  Assign, state, last_error, entry_ip, egress_ip, current_node, check_result,
}

abbrev pub idle_runtime : List Assign
idle_runtime = state "idle" ∷ entry_ip "" ∷ egress_ip "" ∷ current_node end ∷ check_result end ∷ []

abbrev is_other : ℕ → Option ℕ → Bool
is_other me none = false
is_other me (some w) = not (eqb w me)

module _ (out : Outside) (me : ℕ) where
  abbrev pub set_runtime : String → List Assign → Exec Manager ExitSlotSnapshot
  set_runtime id values = on_store out (Runtime.set_runtime id values)

  abbrev pub penalize : String → ℕ → Exec Manager Unit
  penalize ip amount =
      modify (λ m. record m { pool = NodePool.penalize ip amount (out.mono m.trace) m.pool })

  abbrev pub alive : Option ℕ → Manager → Bool
  alive none m = false
  alive (some w) m = out.worker_alive m.trace w

  -- The worker that serves the slot already, as `start_slot` asks before it does anything.
  unfoldable pub is_running : SlotRuntime → ExitSlotSnapshot → Manager → Bool
  is_running r slot m = alive r.worker m && (not r.stop && is_active slot.state)

  abbrev join_worker : Option ℕ → Exec Manager Unit
  join_worker w = when (is_other me w) (for_some w (λ t. emit (worker_joined t)))

  abbrev started_runtime : SlotRuntime → SlotRuntime
  started_runtime r = record r {
    worker = none;
    retry_timer = none;
    listener = none;
    stop = false;
    dial_started = 0;
    health_heartbeat = none;
    health_check_requested = false;
  }

  abbrev spawn_worker : String → ℕ → Exec Manager Unit
  spawn_worker id generation m =
      (do
        emit (worker_started m.next_serial id generation)
        change_runtime id (λ r. record r { worker = some m.next_serial }))
        (record m { next_serial = suc m.next_serial })

  -- The second locked part of `start_slot`.
  unfoldable pub launch : String → SlotRuntime → Exec Manager ExitSlotSnapshot
  launch id r = do
    cancel_timer r
    stop_listener r
    change_runtime id started_runtime
    slot ← set_runtime id (state "connecting" ∷ last_error "" ∷ [])
    threads ← gets (λ m. m.start_workers)
    when threads (spawn_worker id slot.generation)
    pure slot

  unfoldable pub start_slot : String → Exec Manager ExitSlotSnapshot
  start_slot id = do
    require_managed_slot id
    slot ← get_slot id
    if not slot.enabled then pure slot else (do
      r ← runtime id
      running ← gets (is_running r slot)
      if running then pure slot else (do
        join_worker r.worker
        current ← get_slot id
        still ← gets (is_running r current)
        if not current.enabled || still then pure current else launch id r))

  abbrev stop_process : String → SlotRuntime → Exec Manager Unit
  stop_process id r = for_some r.process (λ p. terminate_process out id p)

  abbrev reap_worker : String → SlotRuntime → Exec Manager Unit
  reap_worker id r = when (is_other me r.worker) (do
    join_worker r.worker
    lives ← gets (alive r.worker)
    when (not lives) (change_runtime id (λ q. record q { worker = none })))

  -- `update_slot(enabled=True)` of an enabled slot only moves its generation on.
  abbrev next_generation : ExitSlotSnapshot → Exec Manager ExitSlotSnapshot
  next_generation slot =
      if slot.enabled
      then on_store out (Slots.update_slot slot.id none none (some true))
      else pure slot

  unfoldable pub stop_slot : String → Exec Manager Unit
  stop_slot id = do
    require_managed_slot id
    r ← runtime id
    found ← get_slot id
    change_runtime id (λ q. record q { stop = true })
    slot ← next_generation found
    cancel_timer r
    stop_listener r
    change_runtime id (λ q. record q { retry_timer = none; listener = none })
    stop_process id r
    release_node id
    on_trace (Routing.cleanup out slot)
    when slot.enabled (set_runtime id idle_runtime >> pure tt)
    reap_worker id r

  unfoldable pub disable_slot : String → Exec Manager ExitSlotSnapshot
  disable_slot id = do
    require_managed_slot id
    stop_slot id
    slot ← on_store out (Slots.update_slot id none none (some false))
    record_event out id "disabled" "slot disabled manually"
    pure slot

  unfoldable pub enable_slot : String → Exec Manager ExitSlotSnapshot
  enable_slot id = do
    require_managed_slot id
    current ← get_slot id
    if current.enabled && is_active current.state
        then pure current
        else (do slot ← on_store out (Slots.enable_slot id); start_slot slot.id)

  abbrev redial_message : Bool → String
  redial_message automatic =
      if automatic then "watchdog redial requested" else "manual redial requested"

  unfoldable pub redial_slot : String → Bool → Exec Manager ExitSlotSnapshot
  redial_slot id automatic = do
    require_managed_slot id
    slot ← get_slot id
    if automatic && not slot.enabled then pure slot else (do
      when (automatic && (is_serving slot.state && not (is_empty slot.entry_ip)))
          (change_runtime id (λ r. record r { preferred_node_ip = slot.entry_ip }))
      when (not (is_empty slot.entry_ip)) (penalize slot.entry_ip 3000)
      stop_slot id
      updated ← get_slot id
      if not updated.enabled && automatic then pure updated else (do
        next ← if updated.enabled then pure updated else on_store out (Slots.enable_slot id)
        record_event out id "redial" (redial_message automatic)
        start_slot next.id))

  unfoldable pub connect_slot : String → String → Exec Manager ExitSlotSnapshot
  connect_slot id node_ip = do
    require_managed_slot id
    slot ← get_slot id
    node ← gets (λ m. NodePool.get node_ip slot.country m.pool)
    elim node [
      | none ↦
          raise (value_error ("node " <> (node_ip <> (" is not available for " <> slot.country))))
      | some _ ↦ (do
        stop_slot id
        found ← get_slot id
        updated ←
            if found.enabled
            then pure found
            else on_store out (Slots.update_slot id none none (some true))
        change_runtime id (λ r. record r { preferred_node_ip = node_ip })
        record_event out id "connect" ("manual candidate selected: " <> node_ip)
        start_slot updated.id)
    ]

  unfoldable pub fail_slot : String → String → ℕ → Exec Manager ExitSlotSnapshot
  fail_slot id error max_failures = do
    require_managed_slot id
    r ← runtime id
    change_runtime id (λ q. record q { stop = true })
    slot ← on_store out (Slots.record_failure id error max_failures)
    change_runtime id (λ q. record q { listener = none })
    stop_listener r
    stop_process id r
    release_node id
    on_trace (Routing.cleanup out slot)
    when (not slot.enabled) (set_runtime id (state "disabled" ∷ []) >> pure tt)
    get_slot id

-- ===== src/ExitManager/Recovery/Stale.antt =====
-- vps/exit_manager.py, `_try_recover_stale_slots` and `_repair_listener`: slots whose worker, process,
-- listener or heartbeat has died.
use kui_local_multi_exit.Prelude.{
  ℕ, suc, ◌-◌, ◌*◌, String, ◌<>◌, Bool, true, false, not, ◌&&◌, ◌||◌, Option, none, some, leb, eqb,
  if◌then◌else◌,
}
use kui_local_multi_exit.Prelude.Int.{ℤ, pos, negsuc}
use kui_local_multi_exit.Prelude.Text.{decimal}
use kui_local_multi_exit.Prelude.Exec.{Exec, pure, raise, gets, attempt, ◌>>=◌, ◌>>◌}
use kui_local_multi_exit.Json.{Fields, field, end, bool, str}
use kui_local_multi_exit.Models.{ExitSlotSnapshot, SlotState, is_serving, connecting}
use kui_local_multi_exit.ExitManager.{
  Manager, SlotRuntime, Heartbeat, managed_slots, runtime, change_runtime, emit, get_slot,
  record_event, when, stop_listener, make_listener, start_listener, listener_ready,
}
use kui_local_multi_exit.ExitManager.Lifecycle.{alive, redial_slot}
use kui_local_multi_exit.ExitManager.Health.{is_stale, update_health}
use kui_local_multi_exit.ExitManager.Diagnosis.{process_gone}
use kui_local_multi_exit.Outside.{Outside, Listener, listener_stopped}
use kui_local_multi_exit.ExitManager.Recovery.{for_each, guarded}

abbrev pub stale_slot_after_ms : ℕ
stale_slot_after_ms = 180000

abbrev pub dial_timeout_ms : ℕ
dial_timeout_ms = 300000

abbrev is_connecting : SlotState → Bool
is_connecting connecting = true
is_connecting SlotState.idle = false
is_connecting SlotState.starting = false
is_connecting SlotState.ready = false
is_connecting SlotState.degraded = false
is_connecting SlotState.failed = false
is_connecting SlotState.disabled = false

abbrev signed_text : ℤ → String
signed_text (pos n) = decimal n
signed_text (negsuc n) = "-" <> decimal (suc n)

abbrev restarting_health : Fields
restarting_health =
    field "ok" (bool false)
      (field "status" (str "local_listener") (field "error" (str "SOCKS listener restarting") end))

-- The age of a slot's last sign of life, in milliseconds: that of the heartbeat of its generation,
-- or else that of its row.
abbrev pub age_of : Option Heartbeat → ExitSlotSnapshot → ℕ → ℕ → ℕ
age_of none slot now mono = now - slot.updated_at * 1000
age_of (some h) slot now mono =
    if eqb h.generation slot.generation then mono - h.at else now - slot.updated_at * 1000

module _ (out : Outside) (me : ℕ) where
  abbrev replace_listener : String → ExitSlotSnapshot → Exec Manager Listener
  replace_listener id current = do
    r ← runtime id
    stop_listener r
    change_runtime id (λ q. record q { listener = none })
    make_listener current

  -- The part of `_repair_listener` inside of `try`: whether the new listener is in place.
  abbrev install_listener : String → ℕ → Listener → Exec Manager Bool
  install_listener id generation l = do
    start_listener out l
    stale ← is_stale out me id generation
    if stale then (do emit (listener_stopped l); pure false) else (do
      change_runtime id (λ q. record q { listener = some l; health_check_requested = true })
      pure true)

  -- `_repair_listener`
  unfoldable pub repair_listener : String → ℕ → Exec Manager Bool
  repair_listener id generation = do
    stale ← is_stale out me id generation
    r ← runtime id
    gone ← gets (process_gone out me r)
    ready ← gets (listener_ready out r)
    if stale || gone then pure false else (do
      current ← get_slot id
      if ready then pure true else (do
        update_health out me id generation restarting_health
        l ← replace_listener id current
        done ←
            attempt (install_listener id generation l) (λ e. do emit (listener_stopped l); raise e)
        when done (
            record_event out id "auto_recovery"
              "SOCKS listener restarted; VPN retained; awaiting path verification")
        pure done))

  abbrev exit_text : SlotRuntime → Manager → String
  exit_text r m = elim r.process [
    | none ↦ "missing"
    | some p ↦ elim (out.poll m.trace p) [ none ↦ "None" | some code ↦ signed_text code ]
  ]

  -- What `_try_recover_stale_slots` finds at a slot: a reason to redial, a listener to repair, or
  -- nothing.
  pub data Finding : Type 0 where
    redial : String → Finding
    repair : Finding
    sound : Finding

  unfoldable pub examine_serving : ExitSlotSnapshot → SlotRuntime → Manager → Finding
  examine_serving slot r m =
      if not (alive out me r.worker m)
      then redial "ready slot health worker stopped"
      else if process_gone out me r m
      then redial ("active slot OpenVPN process stopped (returncode=" <> (exit_text r m <> ")"))
      else if not (listener_ready out r m)
      then repair
      else if leb stale_slot_after_ms
          (age_of r.health_heartbeat slot (out.now m.trace) (out.mono m.trace))
      then redial "ready slot heartbeat expired"
      else sound

  unfoldable pub examine : ExitSlotSnapshot → SlotRuntime → Manager → Finding
  examine slot r m =
      if is_serving slot.state
      then examine_serving slot r m
      else if is_connecting slot.state
          && (not (eqb r.dial_started 0) && leb dial_timeout_ms (out.mono m.trace - r.dial_started))
      then redial "connection worker exceeded dial deadline"
      else sound

  unfoldable pub redial_stale : ExitSlotSnapshot → String → Exec Manager Unit
  redial_stale slot reason = do
    current ← get_slot slot.id
    if current.enabled && eqb current.generation slot.generation
        then (do
          record_event out slot.id "auto_recovery" (reason <> "; forcing redial")
          redial_slot out me slot.id true
          pure tt)
        else pure tt

  abbrev act_on : ExitSlotSnapshot → Finding → Exec Manager Unit
  act_on slot (redial reason) = redial_stale slot reason
  act_on slot repair = repair_listener slot.id slot.generation >> pure tt
  act_on slot sound = pure tt

  unfoldable pub recover_stale_slot : ExitSlotSnapshot → Exec Manager Unit
  recover_stale_slot slot =
      if not slot.enabled
      then pure tt
      else (do r ← runtime slot.id; found ← gets (examine slot r); act_on slot found)

  -- `_try_recover_stale_slots`
  unfoldable pub recover_stale_slots : Exec Manager Unit
  recover_stale_slots = do
    slots ← gets managed_slots
    for_each slots (λ s. guarded out me s.id "stale slot recovery" (recover_stale_slot s))

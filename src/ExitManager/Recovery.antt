-- ===== src/ExitManager/Recovery.antt =====
-- vps/exit_manager.py: the watchdog. Every 15 seconds it looks for slots that nothing serves any
-- more; an exception at one slot is recorded and does not keep it from the others.
pub mod Stale
pub mod Round
use kui_local_multi_exit.Prelude.{
  ℕ, suc, ◌-◌, ◌*◌, String, ◌<>◌, Bool, true, false, not, ◌&&◌, ◌||◌, Option, none, some, List, [],
  ◌∷◌, ◌++◌, ◌==◌, leb, eqb, keep, map, if◌then◌else◌,
}
use kui_local_multi_exit.Prelude.Dict
use kui_local_multi_exit.Prelude.Int.{ℤ, pos, negsuc}
use kui_local_multi_exit.Prelude.Text.{is_empty, decimal}
use kui_local_multi_exit.Prelude.Exec.{Exec, Failure, pure, raise, gets, attempt, ◌>>=◌, ◌>>◌}
use kui_local_multi_exit.Json.{Fields, field, end, bool, str}
use kui_local_multi_exit.Models.{ExitSlotSnapshot, SlotState, is_serving, connecting}
use kui_local_multi_exit.ExitManager.{
  Manager, SlotRuntime, Heartbeat, managed_slots, runtime, change_runtime, on_store, emit, get_slot,
  record_event, when, stop_listener, make_listener, start_listener, listener_ready,
}
use kui_local_multi_exit.ExitManager.Nodes.{select_node}
use kui_local_multi_exit.ExitManager.Lifecycle.{alive, start_slot, redial_slot}
use kui_local_multi_exit.ExitManager.Health.{is_stale, update_health}
use kui_local_multi_exit.ExitManager.Diagnosis.{process_gone}
use kui_local_multi_exit.Outside.{Outside, Timer, Listener, listener_stopped}
use kui_local_multi_exit.Store
use kui_local_multi_exit.Store.Slots

-- for slot in slots, where no exception leaves the body
unfoldable pub for_each :
    List ExitSlotSnapshot → (ExitSlotSnapshot → Exec Manager Unit) → Exec Manager Unit
for_each [] body = pure tt
for_each (s ∷ slots) body = do body s; for_each slots body

module _ (out : Outside) (me : ℕ) where
  -- `_report_recovery_error`
  unfoldable pub report_recovery_error : Option String → String → Failure → Exec Manager Unit
  report_recovery_error id operation e m =
      on_store out
        (Store.record_event id "recovery_error" (operation <> (": " <> out.traceback m.trace e))) m

  abbrev pub guarded : String → String → Exec Manager Unit → Exec Manager Unit
  guarded id operation act = attempt act (λ e. report_recovery_error (some id) operation e)

  abbrev timer_ended : Option Timer → Manager → Bool
  timer_ended none m = false
  timer_ended (some t) m = not (out.timer_alive m.trace t)

  abbrev has_timer : SlotRuntime → Bool
  has_timer r = elim r.retry_timer [ none ↦ false | some _ ↦ true ]

  -- The body of `_try_recover_idle_slots`.
  unfoldable pub recover_idle_slot : ExitSlotSnapshot → Exec Manager Unit
  recover_idle_slot slot = if not slot.enabled || is_serving slot.state then pure tt else (do
    r ← runtime slot.id
    active ← gets (alive out me r.worker)
    ended ← gets (timer_ended r.retry_timer)
    when ended (change_runtime slot.id (λ q. record q { retry_timer = none }))
    let waits = not ended && has_timer r
    if active || waits then pure tt else (do
      record_event out slot.id "auto_recovery" "orphaned slot restarted by watchdog"
      start_slot out me slot.id
      pure tt))

  -- `_try_recover_idle_slots`
  unfoldable pub recover_idle_slots : Exec Manager Unit
  recover_idle_slots = do
    slots ← gets managed_slots
    for_each slots (λ s. guarded s.id "orphan recovery" (recover_idle_slot s))

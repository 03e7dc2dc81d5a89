-- ===== src/ExitManager/Recovery/Round.antt =====
-- vps/exit_manager.py: the recovery of slots that were disabled after too many failures, and a round of
-- the watchdog.
use kui_local_multi_exit.Prelude.{
  ℕ, String, Bool, not, ◌&&◌, ◌||◌, none, some, List, [], ◌∷◌, ◌++◌, ◌==◌, eqb, keep, map,
  if◌then◌else◌,
}
use kui_local_multi_exit.Prelude.Dict
use kui_local_multi_exit.Prelude.Text.{is_empty}
use kui_local_multi_exit.Prelude.Exec.{Exec, pure, gets, ◌>>=◌, ◌>>◌}
use kui_local_multi_exit.Models.{ExitSlotSnapshot}
use kui_local_multi_exit.ExitManager.{Manager, managed_slots, on_store, get_slot, record_event}
use kui_local_multi_exit.ExitManager.Nodes.{select_node}
use kui_local_multi_exit.ExitManager.Lifecycle.{start_slot}
use kui_local_multi_exit.Outside.{Outside}
use kui_local_multi_exit.Store.Slots
use kui_local_multi_exit.ExitManager.Recovery.{for_each, guarded, recover_idle_slots}
use kui_local_multi_exit.ExitManager.Recovery.Stale.{recover_stale_slots}

abbrev pub auto_limit : String
auto_limit = "automatic_failure_limit"

module _ (out : Outside) (me : ℕ) where
  abbrev is_auto_disabled : ExitSlotSnapshot → Bool
  is_auto_disabled slot = not slot.enabled && slot.disabled_reason == auto_limit

  -- The first loop of `_try_recover_auto_disabled_slots`: each slot takes a node of its own.
  unfoldable pub recoverable :
      Bool → List String → List ExitSlotSnapshot → Manager → List ExitSlotSnapshot
  recoverable proxied excluded [] m = []
  recoverable proxied excluded (s ∷ slots) m =
      elim (if is_auto_disabled s
        then select_node proxied s.country excluded (out.now m.trace) (out.mono m.trace) m.pool
        else none) [
          | none ↦ recoverable proxied excluded slots m
          | some n ↦ s ∷ recoverable proxied (n.ip ∷ excluded) slots m
        ]

  abbrev taken_ips : Manager → List String
  taken_ips m =
      Dict.values m.reserved
      ++ keep (λ ip. not (is_empty ip))
          (map (λ (s : ExitSlotSnapshot). s.entry_ip) (managed_slots m))

  -- The body of the second loop.
  unfoldable pub reenable_slot : ExitSlotSnapshot → Exec Manager Unit
  reenable_slot slot = do
    current ← get_slot slot.id
    if not (eqb current.generation slot.generation) || not (current.disabled_reason == auto_limit)
        then pure tt
        else (do
          updated ← on_store out (Slots.enable_slot slot.id)
          record_event out slot.id "auto_recovery" "eligible same-country node became available"
          start_slot out me updated.id
          pure tt)

  -- `_try_recover_auto_disabled_slots`
  unfoldable pub recover_auto_disabled_slots : Bool → Exec Manager Unit
  recover_auto_disabled_slots proxied = do
    slots ← gets (λ m. recoverable proxied (taken_ips m) (managed_slots m) m)
    for_each slots (λ s. guarded out me s.id "disabled slot recovery" (reenable_slot s))

  -- A round of `_recovery_loop`; no exception leaves the three.
  unfoldable pub recovery_round : Bool → Exec Manager Unit
  recovery_round proxied = do
    recover_auto_disabled_slots proxied
    recover_idle_slots out me
    recover_stale_slots out me

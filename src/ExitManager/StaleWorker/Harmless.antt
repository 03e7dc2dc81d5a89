-- ===== src/ExitManager/StaleWorker/Harmless.antt =====
-- vps/exit_manager.py: whatever a worker goes on to do once its generation has passed, up to the end of its
-- thread.
use kui_local_multi_exit.Prelude.{ℕ, ◌≡◌, false, some, eqb}
use kui_local_multi_exit.Prelude.Dict
use kui_local_multi_exit.Prelude.Exec.{Outcome, Meets}
use kui_local_multi_exit.Models.{ExitSlotSnapshot}
use kui_local_multi_exit.Outside.{Outside}
use kui_local_multi_exit.Store.{find_row}
use kui_local_multi_exit.ExitManager.{Manager, SlotRuntime}
use kui_local_multi_exit.ExitManager.StaleWorker.Acts.{IsHarmless}

module _ (out : Outside) (me : ℕ) (slot : ExitSlotSnapshot) (generation pid : ℕ) where
  module _ (m : Manager) (r : ExitSlotSnapshot) (q : SlotRuntime)
      (there : find_row slot.id m.store.slots ≡ some r)
      (passed : eqb r.generation generation ≡ false) where
    abbrev Harmless : Manager → Type 0
    Harmless s = IsHarmless slot.id pid q m s

    abbrev Ends : {A : Type 0} → Outcome A × Manager → Type 0
    Ends r = Meets (λ a s. Harmless s) Harmless r

-- ===== src/ExitManager/StaleWorker/Acts.antt =====
-- vps/exit_manager.py: what a worker may do from the target probes on, and what does no harm.
use kui_local_multi_exit.Prelude.{
  ℕ, ◌≡◌, String, ◌==◌, Bool, false, Option, none, some, List, [], ◌∷◌, ◌⊎◌,
}
use kui_local_multi_exit.Prelude.Dict
use kui_local_multi_exit.Prelude.Dict.{get-put}
use kui_local_multi_exit.Json.{Fields}
use kui_local_multi_exit.Models.{ExitSlotSnapshot}
use kui_local_multi_exit.Outside.{Outside, Listener}
use kui_local_multi_exit.ExitManager.{Manager, SlotRuntime}
use kui_local_multi_exit.ExitManager.Lifecycle.Retry.{handle_connection_failure}
use kui_local_multi_exit.ExitManager.Readiness.{commit_ready, record_failed_check}
use kui_local_multi_exit.ExitManager.Health.{update_health, verify_client_path}
use kui_local_multi_exit.ExitManager.Diagnosis.{handle_probe_failure, diagnose_client_failure}
use kui_local_multi_exit.ExitManager.HealthLoop.{health_round}
use kui_local_multi_exit.ExitManager.Worker.{conclude_dial, dispose}
use kui_local_multi_exit.ExitManager.StaleWorker.Asking.{GoesOn}

-- The runtime has its listener, its retry timer and its stop event still, and its process, unless that was
-- the worker's own.
pub record IsKept (pid : ℕ) (q q' : SlotRuntime) : Type 0 where
  pub listener : q'.listener ≡ q.listener
  pub retry_timer : q'.retry_timer ≡ q.retry_timer
  pub stop : q'.stop ≡ q.stop
  pub process : (q'.process ≡ q.process) ⊎ ((q.process ≡ some pid) × (q'.process ≡ none))

pub record IsHarmless (id : String) (pid : ℕ) (q : SlotRuntime) (m s : Manager) : Type 0 where
  pub store : s.store ≡ m.store
  pub pool : s.pool ≡ m.pool
  pub reserved : s.reserved ≡ m.reserved
  pub others : (j : String) → (id == j) ≡ false → Dict.get j s.runtimes ≡ Dict.get j m.runtimes
  pub own : (q' : SlotRuntime) × (Dict.get id s.runtimes ≡ some q') × IsKept pid q q'
  pub effects : GoesOn pid m.trace s.trace

-- The acts of the worker that has started the process `pid`.
pub data Act : Type 0 where
  commits : String → String → Fields → Fields → Option Listener → Act
  records : Fields → Act
  fails : String → String → Bool → Act
  probes : String → Act
  updates : Fields → Act
  verifies : ExitSlotSnapshot → Act
  diagnoses ends : Act
  rounds : ℕ → Act
  concludes : String → String → Fields → Fields → Act

module _ (out : Outside) (me : ℕ) (slot : ExitSlotSnapshot) (generation pid : ℕ) where
  abbrev pub act : Act → Manager → Manager
  act (commits entry egress node result l) m =
      (commit_ready out slot.id generation entry egress node result l m).1
  act (records result) m = (record_failed_check out slot.id generation result m).1
  act (fails error ip again) m =
      (handle_connection_failure out me slot.id generation error ip again m).1
  act (probes error) m = (handle_probe_failure out me slot.id generation error m).1
  act (updates health) m = (update_health out me slot.id generation health m).1
  act (verifies seen) m = (verify_client_path out me slot.id seen generation m).1
  act diagnoses m = (diagnose_client_failure out me slot.id generation m).1
  act (rounds failures) m = (health_round out me slot.id generation failures m).1
  act (concludes endpoint egress node residential) m =
      (conclude_dial out me slot generation endpoint egress node residential m).1
  act ends m = (dispose out me slot generation (some pid) m).1

  abbrev pub acts : List Act → Manager → Manager
  acts [] m = m
  acts (a ∷ as') m = acts as' (act a m)

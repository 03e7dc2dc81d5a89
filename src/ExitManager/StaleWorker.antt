-- ===== src/ExitManager/StaleWorker.antt =====
-- vps/exit_manager.py: what a worker whose generation has passed does on each of its paths but the last one.
pub mod Asking
pub mod Acts
pub mod Harmless
use kui_local_multi_exit.Prelude.{
  ℕ, ◌≡◌, refl, String, Bool, true, false, ◌&&◌, Option, some, arith, eqb,
}
use kui_local_multi_exit.Prelude.Dict
use kui_local_multi_exit.Prelude.Exec.{returned}
use kui_local_multi_exit.Json.{Fields}
use kui_local_multi_exit.Models.{ExitSlotSnapshot}
use kui_local_multi_exit.Outside.{Outside, Listener}
use kui_local_multi_exit.Store
use kui_local_multi_exit.Store.{find_row}
use kui_local_multi_exit.ExitManager.{Manager, SlotRuntime, runtime, worker_is_stale}
use kui_local_multi_exit.ExitManager.Lifecycle.Retry.{
  handle_connection_failure, late_failure_ignored,
}
use kui_local_multi_exit.ExitManager.Readiness.{commit_ready, record_failed_check}
use kui_local_multi_exit.ExitManager.Readiness.Commit.{superseded_commit_ignored}
use kui_local_multi_exit.ExitManager.Health.{is_stale, update_health, verify_client_path}
use kui_local_multi_exit.ExitManager.Diagnosis.{handle_probe_failure, diagnose_client_failure}
use kui_local_multi_exit.ExitManager.HealthLoop.{health_round, ended}

-- Each thing that a worker of that generation may do before its end leaves the manager, with its store and its
-- trace, as it is.
pub record IsPowerless (out : Outside) (me : ℕ) (id : String) (generation : ℕ) (m : Manager)
    (r : ExitSlotSnapshot) : Type 0 where
  pub commits :
      (entry egress : String) (node result : Fields) (prepared : Option Listener)
      → commit_ready out id generation entry egress node result prepared m ≡ (returned false, m)
  pub records :
      (result : Fields) → record_failed_check out id generation result m ≡ (returned false, m)
  pub fails :
      (error ip : String) (same : Bool)
      → handle_connection_failure out me id generation error ip same m ≡ (returned r, m)
  pub probes :
      (error : String) → handle_probe_failure out me id generation error m ≡ (returned false, m)
  pub updates :
      (health : Fields) → update_health out me id generation health m ≡ (returned false, m)
  pub verifies :
      (slot : ExitSlotSnapshot)
      → verify_client_path out me id slot generation m ≡ (returned false, m)
  pub diagnoses : diagnose_client_failure out me id generation m ≡ (returned false, m)
  pub rounds : (failures : ℕ) → health_round out me id generation failures m ≡ (returned ended, m)

module _ (out : Outside) (me : ℕ) (id : String) (generation : ℕ) (m : Manager)
    (r : ExitSlotSnapshot) (q : SlotRuntime) (there : find_row id m.store.slots ≡ some r)
    (passed : (r.enabled && eqb r.generation generation) ≡ false)
    (managed : Dict.get id m.runtimes ≡ some q) where
  told_stale : (stopped : Bool) → worker_is_stale id generation stopped m ≡ (returned true, m)
  unfolding worker_is_stale Store.get_slot
  told_stale stopped = ground arith

  runtime_there : runtime id m ≡ (returned q, m)
  unfolding runtime
  runtime_there = ground arith

  pub found_stale : is_stale out me id generation m ≡ (returned true, m)
  unfolding is_stale
  found_stale = rw (runtime_there) (told_stale q.stop)

  records_nothing :
      (result : Fields) → record_failed_check out id generation result m ≡ (returned false, m)
  unfolding record_failed_check Store.get_slot
  records_nothing result = ground arith

  probes_nothing :
      (error : String) → handle_probe_failure out me id generation error m ≡ (returned false, m)
  unfolding handle_probe_failure
  probes_nothing error = rw (found_stale) refl

  updates_nothing :
      (health : Fields) → update_health out me id generation health m ≡ (returned false, m)
  unfolding update_health
  updates_nothing health = rw (found_stale) refl

  verifies_nothing :
      (slot : ExitSlotSnapshot)
      → verify_client_path out me id slot generation m ≡ (returned false, m)
  unfolding verify_client_path
  verifies_nothing slot = rw (found_stale) refl

  diagnoses_nothing : diagnose_client_failure out me id generation m ≡ (returned false, m)
  unfolding diagnose_client_failure
  diagnoses_nothing = rw (found_stale) refl

  pub row_there : Store.get_slot id m.store ≡ (returned r, m.store)
  unfolding Store.get_slot
  row_there = ground arith

  rounds_end : (failures : ℕ) → health_round out me id generation failures m ≡ (returned ended, m)
  unfolding health_round
  rounds_end failures = rw (row_there, found_stale) refl

  -- A worker whose slot is disabled or has another generation changes nothing before its end: it can
  -- commit no result, record no failed check, fail no slot and write no health, and its health loop
  -- ends. The slot is there and managed.
  pub stale_worker-IsPowerless : IsPowerless out me id generation m r
  stale_worker-IsPowerless = record {
    commits = λ entry egress node result prepared.
        superseded_commit_ignored out id generation entry egress node result prepared m r there
          (ground arith);
    records = records_nothing;
    fails =
        λ error ip same. late_failure_ignored out me id generation error ip same m r there passed;
    probes = probes_nothing;
    updates = updates_nothing;
    verifies = verifies_nothing;
    diagnoses = diagnoses_nothing;
    rounds = rounds_end;
  }

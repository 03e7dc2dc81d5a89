-- ===== src/ExitManager/Lifecycle/StopSteps.antt =====
-- The steps of ExitManager.stop_slot in vps/exit_manager.py behind the listener's stop, and that each
-- only lengthens the trace.
use kui_local_multi_exit.Prelude.{ℕ, String, Bool, not, Option, none}
use kui_local_multi_exit.Prelude.Exec.{Exec, pure, gets, ◌>>=◌, ◌>>◌}
use kui_local_multi_exit.Models.{ExitSlotSnapshot}
use kui_local_multi_exit.Outside.{Outside, worker_joined}
use kui_local_multi_exit.Routing
use kui_local_multi_exit.ExitManager.{
  Manager, SlotRuntime, change_runtime, emit, when, for_some, on_trace, terminate_process,
}
use kui_local_multi_exit.ExitManager.Nodes.{release_node}
use kui_local_multi_exit.ExitManager.Traces.{
  same, Grows, Quiet-Grows, bind-Grows, emit-Grows, when-Grows, for_some-Grows,
  change_runtime-Quiet, terminate_process-Grows, cleanup-Grows,
}
use kui_local_multi_exit.ExitManager.Lifecycle.{
  set_runtime, alive, idle_runtime, is_other, join_worker, stop_process, reap_worker,
}

module _ (out : Outside) (me : ℕ) where
  set_runtime-Grows :
      (id : String) (b : Bool) → Grows (when b (set_runtime out me id idle_runtime >> pure tt))
  set_runtime-Grows id b =
      when-Grows b (set_runtime out me id idle_runtime >> pure tt)
        (bind-Grows (set_runtime out me id idle_runtime) (λ _. pure tt) (λ m. same) (λ _ m. same))

  join-Grows : (w : Option ℕ) → Grows (join_worker out me w)
  join-Grows w =
      when-Grows (is_other me w) (for_some w (λ t. emit (worker_joined t)))
        (for_some-Grows w (λ t. emit (worker_joined t)) (λ t. emit-Grows (worker_joined t)))

  abbrev pub forget_worker : String → Exec Manager Unit
  forget_worker id = change_runtime id (λ q. record q { worker = none })

  reap-Grows : (id : String) (r : SlotRuntime) → Grows (reap_worker out me id r)
  reap-Grows id r =
      when-Grows (is_other me r.worker)
        (join_worker out me r.worker
          >> (gets (alive out me r.worker) >>= λ lives. when (not lives) (forget_worker id)))
        (bind-Grows (join_worker out me r.worker)
          (λ _. gets (alive out me r.worker) >>= λ lives. when (not lives) (forget_worker id))
          (join-Grows r.worker)
          (λ _.
            bind-Grows (gets (alive out me r.worker)) (λ lives. when (not lives) (forget_worker id))
              (λ m. same)
              (λ lives. when-Grows (not lives) (forget_worker id) (
                Quiet-Grows (forget_worker id)
                  (change_runtime-Quiet id (λ q. record q { worker = none }))))))

  stop_process-Grows : (id : String) (r : SlotRuntime) → Grows (stop_process out me id r)
  stop_process-Grows id r =
      for_some-Grows r.process (λ p. terminate_process out id p)
        (λ p. terminate_process-Grows out id p)

  -- The steps behind the listener's stop, the last ones first.
  abbrev pub finish : String → SlotRuntime → ExitSlotSnapshot → Exec Manager Unit
  finish id r slot =
      when slot.enabled (set_runtime out me id idle_runtime >> pure tt) >> reap_worker out me id r

  abbrev pub tear_down : String → SlotRuntime → ExitSlotSnapshot → Exec Manager Unit
  tear_down id r slot = release_node id >> (on_trace (Routing.cleanup out slot) >> finish id r slot)

  abbrev pub forget_handles : String → Exec Manager Unit
  forget_handles id = change_runtime id (λ q. record q { retry_timer = none; listener = none })

  abbrev pub behind_listener : String → SlotRuntime → ExitSlotSnapshot → Exec Manager Unit
  behind_listener id r slot = forget_handles id >> (stop_process out me id r >> tear_down id r slot)

  release_node-Grows : (id : String) → Grows (release_node id)
  unfolding release_node
  release_node-Grows id m = same

  finish-Grows :
      (id : String) (r : SlotRuntime) (slot : ExitSlotSnapshot) → Grows (finish id r slot)
  finish-Grows id r slot =
      bind-Grows (when slot.enabled (set_runtime out me id idle_runtime >> pure tt))
        (λ _. reap_worker out me id r) (set_runtime-Grows id slot.enabled) (λ _. reap-Grows id r)

  tear_down-Grows :
      (id : String) (r : SlotRuntime) (slot : ExitSlotSnapshot) → Grows (tear_down id r slot)
  tear_down-Grows id r slot =
      bind-Grows (release_node id) (λ _. on_trace (Routing.cleanup out slot) >> finish id r slot)
        (release_node-Grows id)
        (λ _.
          bind-Grows (on_trace (Routing.cleanup out slot)) (λ _. finish id r slot)
            (cleanup-Grows out slot) (λ _. finish-Grows id r slot))

  pub behind_listener-Grows :
      (id : String) (r : SlotRuntime) (slot : ExitSlotSnapshot) → Grows (behind_listener id r slot)
  behind_listener-Grows id r slot =
      bind-Grows (forget_handles id) (λ _. stop_process out me id r >> tear_down id r slot)
        (Quiet-Grows (forget_handles id)
          (change_runtime-Quiet id (λ q. record q { retry_timer = none; listener = none })))
        (λ _.
          bind-Grows (stop_process out me id r) (λ _. tear_down id r slot) (stop_process-Grows id r)
            (λ _. tear_down-Grows id r slot))

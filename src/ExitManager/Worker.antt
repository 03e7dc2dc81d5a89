-- ===== src/ExitManager/Worker.antt =====
-- _connect_worker of vps/exit_manager.py, from the target probes to the commit, and its `finally`.
pub mod Settled
pub mod Ended
use kui_local_multi_exit.Prelude.{
  ℕ, String, Bool, true, false, not, ◌&&◌, Option, none, some, List, [], ◌∷◌, map, eqb,
  if◌then◌else◌,
}
use kui_local_multi_exit.Prelude.Int.{pos}
use kui_local_multi_exit.Prelude.Exec.{
  Exec, pure, raise, gets, attempt, os_error, runtime_error, ◌>>=◌, ◌>>◌,
}
use kui_local_multi_exit.Json.{
  Items, Fields, nil, cons, field, end, obj, arr, str, bool, num, merge, assign,
}
use kui_local_multi_exit.Models.{ExitSlotSnapshot, is_serving}
use kui_local_multi_exit.Outside.{Outside, Listener, listener_stopped}
use kui_local_multi_exit.Routing
use kui_local_multi_exit.Vpngate.{Attempt, Probes, probe_targets}
use kui_local_multi_exit.ExitManager.{
  Manager, SlotRuntime, runtime, change_runtime, on_trace, emit, get_slot, when, for_some,
  is_process, make_listener, start_listener, terminate_process,
}
use kui_local_multi_exit.ExitManager.Nodes.{release_node}
use kui_local_multi_exit.ExitManager.Lifecycle.{penalize}
use kui_local_multi_exit.ExitManager.Health.{
  ClientCheck, check_client_targets, clock_seconds, health_of, is_stale,
}
use kui_local_multi_exit.ExitManager.Readiness.{commit_ready, record_failed_check}

abbrev pub stream_urls : List String
stream_urls = "https://www.google.com/" ∷ "https://chatgpt.com" ∷ "https://claude.ai" ∷ []

-- The dict that `probe_targets` returns.
abbrev attempt_fields : Attempt → Fields
attempt_fields a = field "url" (str a.url) (
    field "code" (str a.code) (
      field "accepted" (bool a.accepted) (
        field "classification" (str a.classification)
          (field "elapsed_ms" (num (pos a.elapsed_ms)) (field "error" (str a.error) end)))))

abbrev attempt_items : List Attempt → Items
attempt_items [] = nil
attempt_items (a ∷ as') = cons (obj (attempt_fields a)) (attempt_items as')

abbrev probe_fields : Probes → Fields
probe_fields p = field "base_ok" (bool p.base_ok) (
    field "custom_ok" (bool p.custom_ok)
      (field "accepted" (bool p.accepted) (field "attempts" (arr (attempt_items p.attempts)) end)))

abbrev pub result_of : Fields → Probes → Fields
result_of residential p =
    field "residential" (obj residential) (field "targets" (obj (probe_fields p)) end)

module _ (out : Outside) (me : ℕ) where
  -- `none` stands for the exception of a `curl` that cannot be started.
  abbrev pub probes_or_raise : Option Probes → Exec Manager Probes
  probes_or_raise none = raise (os_error "curl")
  probes_or_raise (some p) = pure p

  abbrev pub run_probes : ExitSlotSnapshot → Exec Manager Probes
  run_probes slot m =
      let r = probe_targets out slot.tunnel_name stream_urls m.trace in
      probes_or_raise r.0 (record m { trace = r.1 })

  abbrev targets_failed : ExitSlotSnapshot → ℕ → String → Fields → Exec Manager Bool
  targets_failed slot generation endpoint result = do
    record_failed_check out slot.id generation result
    penalize out me endpoint 3000
    raise (runtime_error "target probes failed")

  -- The part inside of `try`, with the listener that has been made.
  unfoldable pub bring_up :
      ExitSlotSnapshot → ℕ → String → String → Fields → Fields → Listener → Exec Manager Bool
  bring_up slot generation endpoint egress node result l = do
    start_listener out l
    c ← check_client_targets out me slot
    when (not c.ok) (
        record_failed_check out slot.id generation (assign "health" (obj (health_of c)) result)
        >> pure tt)
    now ← clock_seconds out me
    let health = assign "checked_at" (num (pos now)) (health_of c)
    done ←
        commit_ready out slot.id generation endpoint egress node
          (assign "health" (obj health) result) (some l)
    if done then pure true else raise (runtime_error "slot configuration changed during dial")

  abbrev give_up : Listener → Exec Manager Bool → Exec Manager Bool
  give_up l act = attempt act (λ e. do emit (listener_stopped l); raise e)

  -- The listener is made, brought up and, if an exception is raised, stopped again.
  unfoldable pub serve_result :
      ExitSlotSnapshot → ℕ → String → String → Fields → Fields → Exec Manager Bool
  serve_result slot generation endpoint egress node result = do
    l ← make_listener slot
    give_up l (bring_up slot generation endpoint egress node result l)

  -- From the probes to the commit; false where the worker returns, because it is stale.
  unfoldable pub conclude_dial :
      ExitSlotSnapshot → ℕ → String → String → Fields → Fields → Exec Manager Bool
  conclude_dial slot generation endpoint egress node residential = do
    p ← run_probes slot
    stale ← is_stale out me slot.id generation
    if stale
        then pure false
        else if not p.accepted
        then targets_failed slot generation endpoint (result_of residential p)
        else serve_result slot generation endpoint egress node (result_of residential p)

  abbrev pub terminate_own : String → ℕ → Exec Manager Unit
  terminate_own id p = do r ← runtime id; when (is_process p r.process) (terminate_process out id p)

  abbrev pub forget_thread : SlotRuntime → SlotRuntime
  forget_thread r = if is_process me r.worker then record r { worker = none } else r

  -- The `finally` of the worker, which has started the given process.
  unfoldable pub dispose : ExitSlotSnapshot → ℕ → Option ℕ → Exec Manager Unit
  dispose slot generation process = do
    current ← get_slot slot.id
    let owns = eqb current.generation generation
    when (owns && not (is_serving current.state)) (do
      for_some process (λ p. terminate_process out slot.id p)
      release_node slot.id
      on_trace (Routing.cleanup out slot))
    when (not owns) (for_some process (λ p. terminate_own slot.id p))
    change_runtime slot.id forget_thread

-- ===== src/ExitManager/Diagnosis.antt =====
-- vps/exit_manager.py: what a failed check leads to. The exit itself, the host and the tunnel are told
-- apart before a tunnel is torn down.
pub mod Shared
use kui_local_multi_exit.Prelude.{
  ℕ, ◌+◌, ◌-◌, ◌*◌, ◌/◌, String, ◌<>◌, Bool, true, false, not, ◌&&◌, ◌||◌, Option, none, some, List,
  [], ◌∷◌, ◌++◌, ◌==◌, leb, ltb, eqb, any, length, if◌then◌else◌,
}
use kui_local_multi_exit.Prelude.Text.{is_empty}
use kui_local_multi_exit.Prelude.Int.{pos}
use kui_local_multi_exit.Prelude.Exec.{
  Exec, returned, key_error, pure, raise, gets, modify, ◌>>=◌, ◌>>◌,
}
use kui_local_multi_exit.Json.{
  Json, Items, Fields, nil, cons, field, end, obj, arr, str, bool, num, assign, merge, lookup_obj,
  lookup_str, lookup_true, lookup_count, dumps,
}
use kui_local_multi_exit.Models.{ExitSlotSnapshot, SlotState, degraded}
use kui_local_multi_exit.ExitManager.{
  Manager, SlotRuntime, runtime, on_store, on_trace, get_slot, record_event, when, listener_ready,
  worker_is_stale,
}
use kui_local_multi_exit.ExitManager.Lifecycle.Retry.{handle_connection_failure}
use kui_local_multi_exit.ExitManager.Probe.{Probe, probe_fields, probe_target}
use kui_local_multi_exit.Outside.{Outside, seconds}
use kui_local_multi_exit.Store.Runtime
use kui_local_multi_exit.Store.Runtime.{state, last_error, check_result}
use kui_local_multi_exit.Vpngate.{default_stream_url, probe_health_reference}
use kui_local_multi_exit.ExitManager.Health.{
  is_degraded, is_stale, probe, clock_seconds, update_health,
}

abbrev pub no_retry : Option String → Bool
no_retry none = false
no_retry (some s) = s == "local_configuration" || s == "local_listener"

module _ (out : Outside) (me : ℕ) where
  -- The shared diagnosis, kept for 15 seconds.
  unfoldable pub reference : Exec Manager Fields
  reference = do
    expired ← gets (λ m. leb m.reference_expires (out.mono m.trace))
    when expired (do
      found ← on_trace (probe_health_reference out)
      modify (λ m. record m {
        reference_result = found;
        reference_expires = out.mono m.trace + 15000;
      }))
    gets (λ m. m.reference_result)

  -- runtime.process is None or runtime.process.poll() is not None
  abbrev pub process_gone : SlotRuntime → Manager → Bool
  process_gone r m = elim r.process [
    | none ↦ true
    | some p ↦ elim (out.poll m.trace p) [ none ↦ false | some _ ↦ true ]
  ]

  abbrev shared_detail : String → Fields → String
  shared_detail error found =
      error
      <> ("; shared health reference unavailable: "
          <> (dumps (obj found) <> "; retaining existing tunnel"))

  abbrev shared_result : Fields → String → Fields → ℕ → Fields
  shared_result old error found now =
      assign "health"
        (obj (
          merge (lookup_obj "health" old) (
            field "ok" (bool false) (
              field "status" (str "shared_unavailable") (
                field "error" (str error)
                  (field "reference" (obj found) (field "checked_at" (num (pos now)) end)))))))
        old

  -- Neither the exit nor the host answers: the tunnel stays.
  unfoldable pub retain_tunnel : String → ℕ → String → Fields → ExitSlotSnapshot → Exec Manager Unit
  retain_tunnel id generation error found current = do
    now ← clock_seconds out me
    let detail = shared_detail error found
    updated ← on_store out (
        Runtime.set_runtime_if_generation id generation (
          state "degraded"
          ∷ last_error detail
          ∷ check_result (shared_result current.check_result error found now)
          ∷ []))
    elim updated [
      | none ↦ pure tt
      | some _ ↦
          when (not (is_degraded current.state) || not (current.last_error == detail))
            (record_event out id "shared_probe_unavailable" detail)
    ]

  -- `_handle_probe_failure`: whether the slot was sent into the retry.
  unfoldable pub handle_probe_failure : String → ℕ → String → Exec Manager Bool
  handle_probe_failure id generation error = do
    stale ← is_stale out me id generation
    if stale then pure false else (do
      found ← reference
      current ← get_slot id
      late ← is_stale out me id generation
      r ← runtime id
      gone ← gets (process_gone r)
      if late
          then pure false
          else if lookup_true "ok" found || gone
          then (do
            record_event out id "health_check_failed" (error <> ", triggering retry")
            handle_connection_failure out me id generation error current.entry_ip false
            pure true)
          else (do retain_tunnel id generation error found current; pure false))

  -- The last step of `_diagnose_client_failure`, on the answer of the tunnel itself.
  unfoldable pub conclude : String → ℕ → Fields → Probe → Exec Manager Bool
  conclude id generation health tunnel = do
    let found = assign "tunnel" (obj (probe_fields tunnel)) health
    if tunnel.transport_ok
        then (do
          update_health out me id generation
              (merge found (field "ok" (bool false) (field "status" (str "local_proxy_path") end)))
          pure false)
        else (do
          update_health out me id generation (
              merge found
                (field "ok" (bool false) (field "status" (str "exit_path_unavailable") end)))
          handle_probe_failure id generation "SOCKS and TUN transport failed after confirmation")

  -- `_diagnose_client_failure`
  unfoldable pub diagnose_client_failure : String → ℕ → Exec Manager Bool
  diagnose_client_failure id generation = do
    stale ← is_stale out me id generation
    if stale then pure false else (do
      current ← get_slot id
      let health = lookup_obj "health" current.check_result
      if no_retry (lookup_str "status" health) || ltb (lookup_count "attempts" health) 2
          then pure false
          else (do
            tunnel ← probe out me current default_stream_url false
            late ← is_stale out me id generation
            if late then pure false else conclude id generation health tunnel))

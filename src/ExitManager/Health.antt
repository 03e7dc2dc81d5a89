-- ===== src/ExitManager/Health.antt =====
-- vps/exit_manager.py: the checks of a running exit. A check reads whether its worker is stale
-- before each write, and writes under the generation that it was started for.
use kui_local_multi_exit.Prelude.{
  ℕ, String, Bool, true, false, not, ◌&&◌, Option, none, some, List, [], ◌∷◌, ◌==◌, any,
  if◌then◌else◌,
}
use kui_local_multi_exit.Prelude.Int.{pos}
use kui_local_multi_exit.Prelude.Exec.{Exec, key_error, pure, raise, gets, ◌>>=◌, ◌>>◌}
use kui_local_multi_exit.Json.{
  Items, Fields, nil, cons, field, end, obj, arr, str, bool, num, assign, lookup_obj, lookup_str,
  lookup_true, dumps,
}
use kui_local_multi_exit.Models.{ExitSlotSnapshot, SlotState, degraded}
use kui_local_multi_exit.ExitManager.{
  Manager, runtime, on_store, on_trace, get_slot, record_event, when, listener_ready,
  worker_is_stale,
}
use kui_local_multi_exit.ExitManager.Probe.{Probe, probe_fields, probe_target}
use kui_local_multi_exit.Outside.{Outside, seconds}
use kui_local_multi_exit.Store.Runtime
use kui_local_multi_exit.Store.Runtime.{state, last_error, check_result}
use kui_local_multi_exit.Vpngate.{default_stream_url}

-- The `health` dict of a check: whether the path works, a status, and the attempts so far.
pub record ClientCheck : Type 0 where
  pub ok : Bool
  pub status : String
  pub attempts : List Probe

abbrev probe_items : List Probe → Items
probe_items [] = nil
probe_items (p ∷ ps) = cons (obj (probe_fields p)) (probe_items ps)

abbrev pub health_of : ClientCheck → Fields
health_of c =
    field "ok" (bool c.ok)
      (field "status" (str c.status) (field "attempts" (arr (probe_items c.attempts)) end))

abbrev local_listener_health : Fields
local_listener_health = field "ok" (bool false) (
    field "status" (str "local_listener")
      (field "attempts" (arr nil) (field "error" (str "SOCKS listener missing") end)))

abbrev pub is_local : Probe → Bool
is_local p = p.classification == "local_configuration"

-- The first of `STREAM_URLS` without "google" and "gstatic" in it.
abbrev pub alternate_url : String
alternate_url = "https://chatgpt.com"

abbrev pub is_degraded : SlotState → Bool
is_degraded degraded = true
is_degraded SlotState.idle = false
is_degraded SlotState.starting = false
is_degraded SlotState.connecting = false
is_degraded SlotState.ready = false
is_degraded SlotState.failed = false
is_degraded SlotState.disabled = false

abbrev same_status : Option String → String → Bool
same_status none s = false
same_status (some t) s = t == s

-- The verdict on the two attempts.
unfoldable pub judge : List Probe → ClientCheck
judge attempts =
    if any is_local attempts
    then record { ok = false; status = "local_configuration"; attempts = attempts }
    else (let reachable = any (λ (p : Probe). p.transport_ok) attempts in
        record {
          ok = reachable;
          status = if reachable then "target_error" else "transport_error";
          attempts = attempts;
        })

module _ (out : Outside) (me : ℕ) where
  -- `_worker_is_stale` with the event of the slot's runtime.
  unfoldable pub is_stale : String → ℕ → Exec Manager Bool
  is_stale id generation = do r ← runtime id; worker_is_stale id generation r.stop

  abbrev pub probe : ExitSlotSnapshot → String → Bool → Exec Manager Probe
  probe slot url via_socks = on_trace (probe_target out slot url via_socks)

  abbrev cancelled : List Probe → ClientCheck
  cancelled attempts = record { ok = false; status = "cancelled"; attempts = attempts }

  unfoldable pub check_alternate : ExitSlotSnapshot → Probe → Exec Manager ClientCheck
  check_alternate slot primary = do
    second ← probe slot alternate_url true
    pure (judge (primary ∷ second ∷ []))

  -- `_check_client_targets`
  unfoldable pub check_client_targets : ExitSlotSnapshot → Exec Manager ClientCheck
  check_client_targets slot = do
    stale ← is_stale slot.id slot.generation
    if stale then pure (cancelled []) else (do
      primary ← probe slot default_stream_url true
      late ← is_stale slot.id slot.generation
      if late
          then pure (cancelled (primary ∷ []))
          else if primary.ok
          then pure (record { ok = true; status = "checked"; attempts = primary ∷ [] })
          else if is_local primary
          then pure (record { ok = false; status = "local_configuration"; attempts = primary ∷ [] })
          else check_alternate slot primary)

  abbrev pub clock_seconds : Exec Manager ℕ
  clock_seconds = gets (λ m. seconds (out.now m.trace))

  -- The events that `_update_health` records once its write has landed.
  unfoldable pub health_events :
      String → ExitSlotSnapshot → Bool → String → Fields → Exec Manager Unit
  health_events id current ok status health = do
    when (ok && is_degraded current.state) (
        record_event out id "health_recovered"
          "original SOCKS path recovered; existing tunnel retained")
    when
        (not (same_status (lookup_str "status" (lookup_obj "health" current.check_result)) status)
          && not (status == "checked"))
        (record_event out id "health_probe_detail" (dumps (obj health)))

  -- `_update_health`; `health` has the key `status`, with a text.
  unfoldable pub update_health : String → ℕ → Fields → Exec Manager Bool
  update_health id generation given = do
    stale ← is_stale id generation
    if stale then pure false else (do
      current ← get_slot id
      now ← clock_seconds
      let ok = lookup_true "ok" given
      let health = assign "checked_at" (num (pos now)) given
      updated ← on_store out (
          Runtime.set_runtime_if_generation id generation (
            state (if ok then "ready" else "degraded")
            ∷ last_error (if ok then "" else dumps (obj health))
            ∷ check_result (assign "health" (obj health) current.check_result)
            ∷ []))
      elim updated [
        | none ↦ pure false
        | some _ ↦ elim (lookup_str "status" health) [
          | none ↦ raise (key_error "status")
          | some status ↦ (do health_events id current ok status health; pure ok)
        ]
      ])

  abbrev path_health : String → ExitSlotSnapshot → Bool → Exec Manager Fields
  path_health id slot false = pure local_listener_health
  path_health id slot true = do c ← check_client_targets slot; pure (health_of c)

  -- `_verify_client_path`
  unfoldable pub verify_client_path : String → ExitSlotSnapshot → ℕ → Exec Manager Bool
  verify_client_path id slot generation = do
    stale ← is_stale id generation
    if stale then pure false else (do
      r ← runtime id
      there ← gets (listener_ready out r)
      health ← path_health id slot there
      update_health id generation health)

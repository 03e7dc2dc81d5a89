-- ===== src/ExitManager/Readiness.antt =====
-- vps/exit_manager.py: the result of a connection attempt, written under the generation it ran for.
pub mod Commit
pub mod AnyCountry
pub mod Serving
use kui_local_multi_exit.Prelude.{
  ℕ, String, ◌<>◌, Bool, true, false, not, ◌&&◌, ◌||◌, Option, none, some, List, [], ◌∷◌, ◌==◌, eqb,
  if◌then◌else◌,
}
use kui_local_multi_exit.Prelude.Text.{upper}
use kui_local_multi_exit.Prelude.Exec.{Exec, returned, pure, raise, gets, attempt, ◌>>=◌, ◌>>◌}
use kui_local_multi_exit.Json.{
  Fields, Json, end, obj, lookup, lookup_obj, lookup_str, truthy, dumps,
}
use kui_local_multi_exit.Models.{ExitSlotSnapshot}
use kui_local_multi_exit.ExitManager.{
  Manager, SlotRuntime, runtime, change_runtime, on_store, emit, get_slot, record_event, when,
  stop_listener, make_listener, start_listener,
}
use kui_local_multi_exit.Outside.{Outside, Listener, listener_stopped}
use kui_local_multi_exit.Store.Runtime
use kui_local_multi_exit.Store.Runtime.{
  Assign, state, entry_ip, egress_ip, current_node, check_result, last_error, failure_streak,
}
use kui_local_multi_exit.Store.History

abbrev pub node_country : Fields → String
node_country node = elim (lookup_str "country" node) [ none ↦ "" | some c ↦ upper c ]

-- health.get("ok", True)
unfoldable pub is_verified : Fields → Bool
is_verified health = elim (lookup "ok" health) [ none ↦ true | some v ↦ truthy v ]

-- The attempt is no longer the one that the slot waits for.
abbrev pub is_superseded : ExitSlotSnapshot → ℕ → String → Bool
is_superseded current generation country =
    not current.enabled
    || (not (eqb current.generation generation) || not (current.country == country))

-- The columns of a verified or an unverified connection.
unfoldable pub values_of : Bool → String → String → Fields → Fields → List Assign
values_of verified entry egress node result =
    state (if verified then "ready" else "degraded")
    ∷ entry_ip entry
    ∷ egress_ip egress
    ∷ current_node node
    ∷ check_result result
    ∷ last_error (if verified then "" else dumps (obj (lookup_obj "health" result)))
    ∷ failure_streak 0
    ∷ []

unfoldable pub ready_values : String → String → Fields → Fields → List Assign
ready_values entry egress node result =
    values_of (is_verified (lookup_obj "health" result)) entry egress node result

module _ (out : Outside) where
  -- `record_failed_check`
  unfoldable pub record_failed_check : String → ℕ → Fields → Exec Manager Bool
  record_failed_check id generation result = do
    current ← get_slot id
    if not current.enabled || not (eqb current.generation generation)
        then pure false
        else (do on_store out (History.append_check_result id generation result); pure true)

  abbrev pub is_halted : String → Exec Manager Bool
  is_halted id = do r ← runtime id; gets (λ m. m.shutdown || r.stop)

  abbrev pub drop_listener : Listener → Exec Manager Bool
  drop_listener l = do emit (listener_stopped l); pure false

  -- The listener of the runtime gives way to the new one.
  abbrev pub swap_listener : String → Listener → Exec Manager Bool
  swap_listener id l = do
    r ← runtime id
    stop_listener r
    change_runtime id (λ q. record q { listener = some l })
    pure true

  -- The part inside of `try`; false stands for the returns that have stopped the listener.
  unfoldable pub publish :
      String → ℕ → String → String → Fields → Fields → Listener → Exec Manager Bool
  publish id generation entry egress node result l = do
    start_listener out l
    halted ← is_halted id
    if halted then drop_listener l else (do
      on_store out (History.append_check_result id generation result)
      updated ←
          on_store out (
            Runtime.set_runtime_if_generation id generation (ready_values entry egress node result))
      elim updated [ none ↦ drop_listener l | some _ ↦ swap_listener id l ])

  abbrev pub is_listener : Listener → Option Listener → Bool
  is_listener l none = false
  is_listener l (some k) = eqb k.serial l.serial

  abbrev pub forget_listener : Listener → SlotRuntime → SlotRuntime
  forget_listener l q = if is_listener l q.listener then record q { listener = none } else q

  -- `listener = prepared_listener or self.listener_factory(…)`
  abbrev pub the_listener : Option Listener → ExitSlotSnapshot → Exec Manager Listener
  the_listener (some l) current = pure l
  the_listener none current = make_listener current

  unfoldable pub commit_ready :
      String → ℕ → String → String → Fields → Fields → Option Listener → Exec Manager Bool
  commit_ready id generation entry egress node result prepared = do
    current ← get_slot id
    if is_superseded current generation (node_country node) then pure false else (do
      halted ← is_halted id
      if halted then pure false else (do
        l ← the_listener prepared current
        done ←
            attempt (publish id generation entry egress node result l)
              (λ e. do emit (listener_stopped l); change_runtime id (forget_listener l); raise e)
        if not done
            then pure false
            else (do record_event out id "connected" (entry <> (" -> " <> egress)); pure true)))

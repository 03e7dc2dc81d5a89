-- ===== src/ExitManager.antt =====
-- vps/exit_manager.py, class ExitManager: the parts of its state, and the steps that its methods
-- share. Every method is one step: its locks are taken to serialise it against the other threads.
pub mod Nodes
pub mod Lifecycle
pub mod Readiness
pub mod Probe
pub mod Health
pub mod Diagnosis
pub mod Traces
pub mod Startup
pub mod HealthLoop
pub mod StaleWorker
pub mod Recovery
pub mod Egress
pub mod Worker
use kui_local_multi_exit.Prelude.{
  ℕ, suc, ◌+◌, ◌/◌, String, ◌<>◌, Bool, true, false, not, ◌&&◌, ◌||◌, Option, none, some, List, [],
  ◌∷◌, ◌==◌, ltb, leb, eqb, any, keep, length, map, take, if◌then◌else◌,
}
use kui_local_multi_exit.Prelude.Dict
use kui_local_multi_exit.Prelude.Dict.{Dict}
use kui_local_multi_exit.Prelude.Text.{decimal, is_empty}
use kui_local_multi_exit.Prelude.Exec.{
  Exec, Outcome, returned, raised, key_error, value_error, os_error, pure, raise, gets, modify,
  ◌>>=◌, ◌>>◌,
}
use kui_local_multi_exit.Json.{Fields, end}
use kui_local_multi_exit.Models.{ExitSlotSnapshot}
use kui_local_multi_exit.NodePool
use kui_local_multi_exit.NodePool.{NodePool}
use kui_local_multi_exit.Outside.{
  Outside, Listener, Timer, Effect, Trace, listener_started, listener_stopped, process_terminated,
  process_killed, timer_cancelled, seconds,
}
use kui_local_multi_exit.Store
use kui_local_multi_exit.Store.{Store}

-- `health_heartbeat`: the generation and the monotonic time of the last sign of life.
pub record Heartbeat : Type 0 where
  pub generation : ℕ
  pub at : ℕ

-- `SlotRuntime`. A process and a thread are named by a number, `stop` is whether the event is set,
-- and `dial_started` is 0 for "not dialling".
pub record SlotRuntime : Type 0 where
  pub process : Option ℕ
  pub listener : Option Listener
  pub worker : Option ℕ
  pub retry_timer : Option Timer
  pub stop : Bool
  pub preferred_node_ip : String
  pub dial_started : ℕ
  pub health_heartbeat : Option Heartbeat
  pub health_check_requested : Bool

abbrev pub fresh_runtime : SlotRuntime
fresh_runtime = record {
  process = none;
  listener = none;
  worker = none;
  retry_timer = none;
  stop = false;
  preferred_node_ip = "";
  dial_started = 0;
  health_heartbeat = none;
  health_check_requested = false;
}

pub record Manager : Type 0 where
  pub store : Store
  pub pool : NodePool
  pub runtimes : Dict SlotRuntime
  pub reserved : Dict String
  pub shutdown : Bool
  pub start_workers : Bool
  pub dial_slots : ℕ
  pub reference_expires : ℕ
  pub reference_result : Fields
  pub trace : Trace
  pub next_serial : ℕ

abbrev pub or_count : ℕ → Option ℕ → ℕ
or_count d none = d
or_count d (some n) = n

abbrev fresh_runtimes : List ExitSlotSnapshot → Dict SlotRuntime
fresh_runtimes = map {B = String × SlotRuntime} (λ s. (s.id, fresh_runtime))

-- `__init__`: the first `slot_count` slots of the store are managed.
unfoldable pub new_manager : Store → Option ℕ → Option ℕ → Bool → Outcome Manager
new_manager store slot_count dial_workers start_workers =
    let all = Store.list_slots store in
    let slots = or_count (length all) slot_count in
    let workers = or_count slots dial_workers in
    if not (leb 1 slots && leb slots (length all))
    then raised (value_error ("slot_count must be between 1 and " <> decimal (length all)))
    else if not (leb 1 workers && leb workers slots)
    then raised (value_error ("dial_workers must be between 1 and " <> decimal slots))
    else returned (record {
      store = store;
      pool = NodePool.empty;
      runtimes = fresh_runtimes (take slots all);
      reserved = [];
      shutdown = false;
      start_workers = start_workers;
      dial_slots = workers;
      reference_expires = 0;
      reference_result = end;
      trace = [];
      next_serial = 0;
    })

unfoldable pub is_managed_slot : String → Manager → Bool
is_managed_slot id m = elim (Dict.get id m.runtimes) [ none ↦ false | some _ ↦ true ]

unfoldable pub require_managed_slot : String → Exec Manager Unit
require_managed_slot id m =
    if is_managed_slot id m
    then (returned tt, m)
    else raise (key_error ("slot " <> (id <> " is outside the active runtime profile"))) m

unfoldable pub managed_slots : Manager → List ExitSlotSnapshot
managed_slots m = keep (λ s. is_managed_slot s.id m) (Store.list_slots m.store)

unfoldable pub runtime : String → Exec Manager SlotRuntime
runtime id m = elim (Dict.get id m.runtimes) [ none ↦ raise (key_error id) m | some r ↦ pure r m ]

-- Writing fields of a slot's runtime.
unfoldable pub put_runtime : String → SlotRuntime → Exec Manager Unit
put_runtime id r m = (returned tt, record m { runtimes = Dict.put id r m.runtimes })

unfoldable pub change_runtime : String → (SlotRuntime → SlotRuntime) → Exec Manager Unit
change_runtime id f m = elim (Dict.get id m.runtimes) [
  | none ↦ raise (key_error id) m
  | some r ↦ put_runtime id (f r) m
]

-- A method of the store, at the instant that the clock shows.
abbrev pub on_store : {A : Type 0} → Outside → (ℕ → Exec Store A) → Exec Manager A
on_store out method m =
    let r = method (seconds (out.now m.trace)) m.store in (r.0, record m { store = r.1 })

abbrev pub on_trace : {A : Type 0} → Exec Trace A → Exec Manager A
on_trace act m = let r = act m.trace in (r.0, record m { trace = r.1 })

abbrev pub emit : Effect → Exec Manager Unit
emit e m = (returned tt, record m { trace = e ∷ m.trace })

abbrev pub get_slot : String → Exec Manager ExitSlotSnapshot
get_slot id m = let r = Store.get_slot id m.store in (r.0, m)

abbrev pub record_event : Outside → String → String → String → Exec Manager Unit
record_event out id kind message = on_store out (Store.record_event (some id) kind message)

abbrev pub when : Bool → Exec Manager Unit → Exec Manager Unit
when true act = act
when false act = pure tt

abbrev pub for_some {ℓ} : {A : Type ℓ} → Option A → (A → Exec Manager Unit) → Exec Manager Unit
for_some none act = pure tt
for_some (some a) act = act a

unfoldable pub cancel_timer : SlotRuntime → Exec Manager Unit
cancel_timer r = for_some r.retry_timer (λ t. emit (timer_cancelled t))

unfoldable pub stop_listener : SlotRuntime → Exec Manager Unit
stop_listener r = for_some r.listener (λ l. emit (listener_stopped l))

abbrev pub is_process : ℕ → Option ℕ → Bool
is_process pid none = false
is_process pid (some p) = eqb p pid

abbrev pub forget_process : ℕ → SlotRuntime → SlotRuntime
forget_process pid r = if is_process pid r.process then record r { process = none } else r

-- `_terminate_process` of a given process: it is killed if it does not end in time.
unfoldable pub terminate_process : Outside → String → ℕ → Exec Manager Unit
terminate_process out id pid = do
  ends ← gets (λ m. out.terminates m.trace pid)
  emit (process_terminated pid)
  when (not ends) (emit (process_killed pid))
  change_runtime id (forget_process pid)

unfoldable pub make_listener : ExitSlotSnapshot → Exec Manager Listener
make_listener slot m = (
  returned (record {
    slot_id = slot.id;
    host = "0.0.0.0";
    port = slot.proxy_port;
    interface = slot.tunnel_name;
    mark = slot.mark;
    serial = m.next_serial;
  }),
  record m { next_serial = suc m.next_serial },
)

-- listener.start(timeout=3)
unfoldable pub start_listener : Outside → Listener → Exec Manager Unit
start_listener out l m =
    let starts = out.listener_starts m.trace l in
    let m' = record m { trace = listener_started l ∷ m.trace } in
    if starts then (returned tt, m') else raise (os_error "proxy listener did not start") m'

unfoldable pub listener_ready : Outside → SlotRuntime → Manager → Bool
listener_ready out r m = elim r.listener [ none ↦ false | some l ↦ out.listener_ready m.trace l ]

-- `_worker_is_stale`
unfoldable pub worker_is_stale : String → ℕ → Bool → Exec Manager Bool
worker_is_stale id generation stopped m =
    if m.shutdown || stopped
    then (returned true, m)
    else (do
      current ← get_slot id
      pure (not current.enabled || not (eqb current.generation generation)))
        m

-- ===== src/ExitManager/Lifecycle/Retry.antt =====
-- vps/exit_manager.py: what follows a failed connection.
use kui_local_multi_exit.Prelude.{
  ℕ, zero, suc, ◌-◌, ◌*◌, ◌^◌, ◌≤◌, ◌≡◌, ap, String, Bool, true, false, not, ◌&&◌, ◌||◌, none, some,
  ◌==◌, eqb, min, if◌then◌else◌, arith,
}
use kui_local_multi_exit.Prelude.Text.{is_empty}
use kui_local_multi_exit.Prelude.Exec.{Exec, returned, pure, gets, ◌>>=◌, ◌>>◌}
use kui_local_multi_exit.Models.{ExitSlotSnapshot, SlotState, is_serving, failed}
use kui_local_multi_exit.ExitManager.{
  Manager, SlotRuntime, runtime, change_runtime, put_runtime, emit, get_slot, when, cancel_timer,
}
use kui_local_multi_exit.ExitManager.Lifecycle.{alive, start_slot, fail_slot, penalize}
use kui_local_multi_exit.Store
use kui_local_multi_exit.Prelude.Dict
use kui_local_multi_exit.Outside.{Outside, Timer, timer_started}

abbrev pub country_slot_failure_limit : ℕ
country_slot_failure_limit = 5

-- min(5 * 2 ** max(0, streak - 1), 60): the subtraction stops at 0.
unfoldable pub retry_delay : ℕ → ℕ
retry_delay streak = min (5 * 2 ^ (streak - 1)) 60

abbrev pub failure_limit : ExitSlotSnapshot → ℕ
failure_limit slot = if slot.country == "ANY" then 3 else country_slot_failure_limit

abbrev is_failed : SlotState → Bool
is_failed failed = true
is_failed SlotState.idle = false
is_failed SlotState.starting = false
is_failed SlotState.connecting = false
is_failed SlotState.ready = false
is_failed SlotState.degraded = false
is_failed SlotState.disabled = false

-- The conditions under which `_retry_failed_slot` does nothing.
abbrev retry_obsolete : ExitSlotSnapshot → ℕ → Manager → Bool
retry_obsolete current generation m =
    m.shutdown
    || (not current.enabled
        || (not (eqb current.generation generation) || not (is_failed current.state)))

module _ (out : Outside) (me : ℕ) where
  -- `_schedule_retry`
  unfoldable pub schedule_retry : String → ℕ → ℕ → Exec Manager Unit
  schedule_retry id generation delay = do
    r ← runtime id
    cancel_timer r
    serial ← gets (λ m. m.next_serial)
    let timer : Timer = record {
      slot_id = id;
      generation = generation;
      delay = delay;
      serial = serial;
    }
    λ m. (returned tt, record m { next_serial = suc m.next_serial })
    emit (timer_started timer)
    change_runtime id (λ q. record q { retry_timer = some timer })

  -- `_retry_failed_slot`, which the timer calls.
  unfoldable pub retry_failed_slot : String → ℕ → Exec Manager Unit
  retry_failed_slot id generation = do
    r ← runtime id
    change_runtime id (λ q. record q { retry_timer = none })
    current ← get_slot id
    obsolete ← gets (retry_obsolete current generation)
    busy ← gets (alive out me r.worker)
    if obsolete
        then pure tt
        else if busy
        then schedule_retry id generation 1
        else (do start_slot out me id; pure tt)

  -- `_handle_connection_failure`
  unfoldable pub handle_connection_failure :
      String → ℕ → String → String → Bool → Exec Manager ExitSlotSnapshot
  handle_connection_failure id generation error endpoint_ip retry_same_peer = do
    current ← get_slot id
    if not current.enabled || not (eqb current.generation generation) then pure current else (do
      when (retry_same_peer && (is_serving current.state && not (is_empty current.entry_ip)))
          (change_runtime id (λ q. record q { preferred_node_ip = current.entry_ip }))
      slot ← fail_slot out me id error (failure_limit current)
      when (not (is_empty endpoint_ip)) (penalize out me endpoint_ip 10000)
      threads ← gets (λ m. m.start_workers)
      when (slot.enabled && threads)
          (schedule_retry id slot.generation (retry_delay slot.failure_streak))
      pure slot)

power_positive : (n : ℕ) → 1 ≤ 2 ^ n
power_positive zero = omega arith
power_positive (suc n) = ground (arith, power_positive n)

delay_at : (n : ℕ) → retry_delay (suc n) ≡ min (5 * 2 ^ n) 60
unfolding retry_delay
delay_at n = ap (λ k. min (5 * 2 ^ k) 60) less_one
  where
    less_one : suc n - 1 ≡ n
    less_one = omega arith

power_doubles : (n : ℕ) → 2 ^ suc n ≡ 2 * 2 ^ n
power_doubles n = omega arith

-- The delay after a failure is between 5 and 60 seconds, and each further failure doubles it up to
-- the 60 seconds.
pub retry_delay-bounds :
    (streak : ℕ)
    → (5 ≤ retry_delay (suc streak))
      × (retry_delay (suc streak) ≤ 60)
      × (retry_delay (suc (suc streak)) ≡ min (2 * retry_delay (suc streak)) 60)
retry_delay-bounds streak =
    ground
      (arith, power_positive streak, power_doubles streak, delay_at streak, delay_at (suc streak))

-- A failure of an attempt that the slot no longer waits for changes nothing: the slot is there, and
-- it is disabled or has another generation.
pub late_failure_ignored :
    (out : Outside) (me : ℕ) (id : String) (generation : ℕ) (error ip : String) (same : Bool)
    (m : Manager) (r : ExitSlotSnapshot)
    → Store.find_row id m.store.slots ≡ some r
    → (r.enabled && eqb r.generation generation) ≡ false
    → handle_connection_failure out me id generation error ip same m ≡ (returned r, m)
unfolding handle_connection_failure Store.get_slot
late_failure_ignored out me id generation error ip same m r e stale = ground (arith)

-- A retry timer that fires late only forgets itself: after a shutdown, or at a slot that is disabled,
-- has another generation or is not in the state `failed`.
pub late_retry_ignored :
    (out : Outside) (me : ℕ) (id : String) (generation : ℕ) (m : Manager) (q : SlotRuntime)
    (r : ExitSlotSnapshot)
    → Dict.get id m.runtimes ≡ some q
    → Store.find_row id m.store.slots ≡ some r
    → retry_obsolete r generation m ≡ true
    → retry_failed_slot out me id generation m ≡ (
      returned tt,
      record m { runtimes = Dict.put id (record q { retry_timer = none }) m.runtimes },
    )
unfolding retry_failed_slot runtime change_runtime put_runtime Store.get_slot
late_retry_ignored out me id generation m q r there e late = ground (arith)

-- ===== src/ExitManager/HealthLoop.antt =====
-- vps/exit_manager.py, `_health_loop`: one round of the loop and the delay to the next one. The wait
-- between two rounds and the wait for one of the two health slots pass time only, and both end with a
-- look at whether the worker is stale. A delay is a fraction of seconds, whose denominator is the
-- number of managed slots.
use kui_local_multi_exit.Prelude.{
  ℕ, zero, suc, ◌+◌, ◌*◌, String, ◌<>◌, Bool, true, false, not, Option, none, some, leb,
  if◌then◌else◌,
}
use kui_local_multi_exit.Prelude.Int.{ℤ, pos, negsuc}
use kui_local_multi_exit.Prelude.Text.{decimal}
use kui_local_multi_exit.Prelude.Exec.{Exec, pure, gets, ◌>>=◌, ◌>>◌}
use kui_local_multi_exit.Models.{ExitSlotSnapshot, SlotState}
use kui_local_multi_exit.Outside.{Outside}
use kui_local_multi_exit.Routing
use kui_local_multi_exit.ExitManager.{Manager, SlotRuntime, runtime, on_trace, get_slot}
use kui_local_multi_exit.ExitManager.Lifecycle.Retry.{handle_connection_failure}
use kui_local_multi_exit.ExitManager.Health.{is_degraded, is_stale, verify_client_path}
use kui_local_multi_exit.ExitManager.Diagnosis.{diagnose_client_failure}

abbrev pub health_interval : ℕ
health_interval = 300

abbrev pub health_retry_interval : ℕ
health_retry_interval = 30

abbrev pub health_stagger : ℕ
health_stagger = 30

-- HEALTH_BACKOFF_SECONDS[min(n, 2)]
abbrev pub health_backoff : ℕ → ℕ
health_backoff zero = 60
health_backoff (suc zero) = 120
health_backoff (suc (suc n)) = 300

-- The delay before the first round of the slot with that index among `count` slots.
unfoldable pub first_delay : SlotState → ℕ → ℕ → ℕ
first_delay s index count =
    if is_degraded s then health_retry_interval * count else health_interval * (index + 1)

-- The delay after a round that has left so many failures in a row.
unfoldable pub next_delay : ℕ → ℕ → ℕ → ℕ
next_delay zero index count = health_interval * count + health_stagger * (index + 1)
next_delay (suc zero) index count = health_retry_interval * count
next_delay (suc (suc n)) index count = health_backoff n * count

-- How a round ends: the loop has returned, or it goes on with a count of failures.
pub data Round : Type 0 where
  ended : Round
  goes_on : ℕ → Round

abbrev code_text : ℤ → String
code_text (pos n) = decimal n
code_text (negsuc n) = "-" <> decimal (suc n)

-- returncode = runtime.process.poll() if runtime.process is not None else "missing"
unfoldable pub exit_status : Outside → SlotRuntime → Manager → Option String
exit_status out r m = elim r.process [
  | none ↦ some "missing"
  | some p ↦ elim (out.poll m.trace p) [ none ↦ none | some code ↦ some (code_text code) ]
]

module _ (out : Outside) (me : ℕ) where
  abbrev give_up : String → ℕ → String → ExitSlotSnapshot → Exec Manager Round
  give_up id generation error current = do
    handle_connection_failure out me id generation error current.entry_ip true
    pure ended

  -- From the answer of the path on.
  unfoldable pub count_failure : String → ℕ → ℕ → Bool → Exec Manager Round
  count_failure id generation failures true = pure (goes_on 0)
  count_failure id generation failures false =
      if leb 2 (suc failures)
      then (do
        torn ← diagnose_client_failure out me id generation
        pure (if torn then ended else goes_on (suc failures)))
      else pure (goes_on (suc failures))

  unfoldable pub check_path : String → ℕ → ℕ → ExitSlotSnapshot → Exec Manager Round
  check_path id generation failures current = do
    healthy ← verify_client_path out me id current generation
    stale ← is_stale out me id generation
    if stale then pure ended else count_failure id generation failures healthy

  -- A round, once its process is known to run.
  unfoldable pub check_route : String → ℕ → ℕ → ExitSlotSnapshot → Exec Manager Round
  check_route id generation failures current = do
    there ← on_trace (Routing.is_installed out current)
    if not there then give_up id generation "policy route disappeared" current else (do
      late ← is_stale out me id generation
      if late then pure ended else check_path id generation failures current)

  -- The body of `_health_loop` for one check.
  unfoldable pub health_round : String → ℕ → ℕ → Exec Manager Round
  health_round id generation failures = do
    current ← get_slot id
    stale ← is_stale out me id generation
    if stale then pure ended else (do
      r ← runtime id
      status ← gets (exit_status out r)
      elim status [
        | some code ↦
            give_up id generation ("OpenVPN process exited (returncode=" <> (code <> ")")) current
        | none ↦ check_route id generation failures current
      ])

-- ===== src/Store/Streak.antt =====
-- `record_failure` of vps/store.py, again and again: the streak that disables a slot.
use kui_local_multi_exit.Prelude.{
  ℕ, zero, suc, ◌+◌, ◌≤◌, ◌≡◌, refl, String, some, eq_refl, arith, ltb, if◌then◌else◌,
}
use kui_local_multi_exit.Models.{ExitSlotSnapshot, failed, disabled}
use kui_local_multi_exit.Store.{Store, find_row, get_slot, record_event}
use kui_local_multi_exit.Store.Slots.{failed_row, record_failure}
use kui_local_multi_exit.Store.Rows.{find-update}

-- The store after `n` failures of a slot at the instant `now`.
unfoldable pub fail_times : String → String → ℕ → ℕ → ℕ → Store → Store
fail_times id error max_failures now zero s = s
fail_times id error max_failures now (suc n) s =
    (record_failure id error max_failures now (fail_times id error max_failures now n s)).1

-- The row after `n` failures, for `n` above 0.
pub record Failed (r : ExitSlotSnapshot) (max_failures n : ℕ) (found : ExitSlotSnapshot)
    : Type 0 where
  pub streak : found.failure_streak ≡ r.failure_streak + n
  pub enabled : found.enabled ≡ ltb (r.failure_streak + n) max_failures
  pub state : found.state ≡ (if ltb (r.failure_streak + n) max_failures then failed else disabled)
  pub reason :
      found.disabled_reason
      ≡ (if ltb (r.failure_streak + n) max_failures then "" else "automatic_failure_limit")
  pub generation : found.generation ≡ r.generation + n

one_failure :
    (id error : String) (max_failures now : ℕ) (s : Store) (r : ExitSlotSnapshot)
    → 1 ≤ max_failures
    → find_row id s.slots ≡ some r
    → find_row id (record_failure id error max_failures now s).1.slots
      ≡ some (failed_row r error max_failures now r)
unfolding record_failure get_slot record_event
one_failure id error max_failures now s r pos e =
    ground (
      arith,
      find-update id id (failed_row r error max_failures now) (λ q. refl) s.slots,
      eq_refl id,
    )

-- A failure after `n` of them.
next_failure :
    (r : ExitSlotSnapshot) (error : String) (max_failures now n : ℕ) (q : ExitSlotSnapshot)
    → q.failure_streak ≡ r.failure_streak + n
    → q.generation ≡ r.generation + n
    → Failed r max_failures (suc n) (failed_row q error max_failures now q)
unfolding failed_row
next_failure r error max_failures now n q streak grown = record {
  streak = ground arith;
  enabled = ground arith;
  state = ground arith;
  reason = ground arith;
  generation = ground arith;
}

-- After `n + 1` failures in a row a slot has a streak that is greater by `n + 1`, and its generation
-- has moved as often. It stays enabled, in the state `failed`, exactly as long as the streak is below
-- the limit; at the limit it is disabled with the reason `automatic_failure_limit`. The limit is
-- positive, and the slot is there.
pub failure_limit_disables :
    (id error : String) (max_failures now n : ℕ) (s : Store) (r : ExitSlotSnapshot)
    → 1 ≤ max_failures
    → find_row id s.slots ≡ some r
    → (q : ExitSlotSnapshot) × (find_row id (fail_times id error max_failures now (suc n) s).slots
        ≡ some q)
      × Failed r max_failures (suc n) q
unfolding fail_times
failure_limit_disables id error max_failures now zero s r pos e = (
  failed_row r error max_failures now r,
  one_failure id error max_failures now s r pos e,
  next_failure r error max_failures now zero r (omega arith) (omega arith),
)
failure_limit_disables id error max_failures now (suc n) s r pos e =
    let (q, there, at) = failure_limit_disables id error max_failures now n s r pos e in
    (
      failed_row q error max_failures now q,
      one_failure id error max_failures now (fail_times id error max_failures now (suc n) s) q pos
          there,
      next_failure r error max_failures now (suc n) q at.streak at.generation,
    )

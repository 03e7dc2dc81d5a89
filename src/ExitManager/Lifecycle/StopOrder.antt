-- ===== src/ExitManager/Lifecycle/StopOrder.antt =====
-- ExitManager.stop_slot of vps/exit_manager.py: the order in which a slot is taken down.
use kui_local_multi_exit.Prelude.{
  ℕ, ◌≡◌, refl, ◌∙◌, sym, subst, String, Bool, true, false, Option, none, some, ◌∷◌, ◌⊎◌, inl, inr,
  arith, if◌then◌else◌,
}
use kui_local_multi_exit.Prelude.Dict
use kui_local_multi_exit.Prelude.Exec.{Exec, Outcome, returned, raised, proceed, pure, ◌>>=◌, ◌>>◌}
use kui_local_multi_exit.Models.{ExitSlotSnapshot}
use kui_local_multi_exit.Outside.{
  Outside, Listener, Timer, Trace, listener_stopped, timer_cancelled,
}
use kui_local_multi_exit.Store.Slots
use kui_local_multi_exit.ExitManager.{
  Manager, SlotRuntime, runtime, change_runtime, require_managed_slot, get_slot, emit, for_some,
  on_store, cancel_timer, stop_listener,
}
use kui_local_multi_exit.ExitManager.Traces.{
  Extends, Grows, Quiet, change_runtime-Quiet, runtime-Quiet, require-Quiet,
}
use kui_local_multi_exit.ExitManager.Lifecycle.StopSteps.{behind_listener, behind_listener-Grows}
use kui_local_multi_exit.ExitManager.Lifecycle.{stop_slot, next_generation}

-- The trace once a slot's timer is cancelled.
abbrev pub cancelled : Option Timer → Trace → Trace
cancelled none t = t
cancelled (some timer) t = timer_cancelled timer ∷ t

-- Nothing has happened outside, or the first thing but for a timer was that the listener stopped.
abbrev pub ListenerFirst : SlotRuntime → Listener → Trace → Trace → Type 0
ListenerFirst r l t u = (u ≡ t) ⊎ Extends (listener_stopped l ∷ cancelled r.retry_timer t) u

-- A quiet step before the listener is stopped.
before :
    {A B : Type 0} (t p : Trace) (act : Exec Manager A) (k : A → Exec Manager B) (m : Manager)
    → (act m).1.trace ≡ t
    → ((a : A)
        → (act m).0 ≡ returned a
        → ((k a (act m).1).1.trace ≡ t) ⊎ Extends p (k a (act m).1).1.trace)
    → (((act >>= k) m).1.trace ≡ t) ⊎ Extends p ((act >>= k) m).1.trace
before {A} {B} t p act k m quiet h = go (act m).0 h
  where
    go :
        (o : Outcome A)
        → ((a : A)
            → o ≡ returned a
            → ((k a (act m).1).1.trace ≡ t) ⊎ Extends p (k a (act m).1).1.trace)
        → ((proceed {B = B} o k (act m).1).1.trace ≡ t)
          ⊎ Extends p (proceed {B = B} o k (act m).1).1.trace
    go (returned a) f = f a refl
    go (raised e) f = inl quiet

stop_then :
    (r : SlotRuntime) (l : Listener) (rest : Exec Manager Unit)
    → r.listener ≡ some l
    → Grows rest
    → (m : Manager)
    → Extends
        (listener_stopped l ∷ cancelled r.retry_timer m.trace)
        ((cancel_timer r >> (stop_listener r >> rest)) m).1.trace
unfolding cancel_timer stop_listener
stop_then r l rest e g m =
    subst
      (λ p.
        Extends (listener_stopped l ∷ cancelled r.retry_timer m.trace)
          ((for_some r.retry_timer (λ t. emit (timer_cancelled t))
              >> (for_some p (λ k. emit (listener_stopped k)) >> rest))
            m).1.trace)
      (sym e) (go r.retry_timer)
  where
    go :
        (o : Option Timer)
        → Extends
            (listener_stopped l ∷ cancelled o m.trace)
            ((for_some o (λ t. emit (timer_cancelled t)) >> (emit (listener_stopped l) >> rest))
              m).1.trace
    go none = g (record m { trace = listener_stopped l ∷ m.trace })
    go (some t) = g (record m { trace = listener_stopped l ∷ timer_cancelled t ∷ m.trace })

require_keeps : (id : String) (m : Manager) → (require_managed_slot id m).1 ≡ m
unfolding require_managed_slot
require_keeps id m = ground arith

runtime_found :
    (id : String) (m : Manager) (r q : SlotRuntime)
    → Dict.get id m.runtimes ≡ some r
    → (runtime id m).0 ≡ returned q
    → ((runtime id m).1 ≡ m) × (r ≡ q)
unfolding runtime
runtime_found id m r q there e = ground arith

module _ (out : Outside) (me : ℕ) where
  next_generation-Quiet : (found : ExitSlotSnapshot) → Quiet (next_generation out me found)
  next_generation-Quiet found m = go found.enabled
    where
      go :
          (b : Bool)
          → ((if b
                then on_store out (Slots.update_slot found.id none none (some true))
                else pure found)
              m).1.trace
            ≡ m.trace
      go true = refl
      go false = refl

  -- The steps from the slot's row on.
  abbrev pub from_row : String → SlotRuntime → ExitSlotSnapshot → Exec Manager Unit
  from_row id r found =
      change_runtime id (λ q. record q { stop = true })
      >> (next_generation out me found >>= λ slot.
          cancel_timer r >> (stop_listener r >> behind_listener out me id r slot))

  from_row_first :
      (id : String) (r : SlotRuntime) (l : Listener) (found : ExitSlotSnapshot) (m : Manager)
      → r.listener ≡ some l
      → ListenerFirst r l m.trace (from_row id r found m).1.trace
  from_row_first id r l found m has =
      before m.trace (listener_stopped l ∷ cancelled r.retry_timer m.trace)
        (change_runtime id (λ q. record q { stop = true }))
        (λ _. next_generation out me found >>= λ slot.
          cancel_timer r >> (stop_listener r >> behind_listener out me id r slot))
        m (change_runtime-Quiet id (λ q. record q { stop = true }) m)
        (λ _ _.
          before m.trace (listener_stopped l ∷ cancelled r.retry_timer m.trace)
            (next_generation out me found)
            (λ slot. cancel_timer r >> (stop_listener r >> behind_listener out me id r slot))
            (change_runtime id (λ q. record q { stop = true }) m).1
            (next_generation-Quiet found (change_runtime id (λ q. record q { stop = true }) m).1
              ∙ change_runtime-Quiet id (λ q. record q { stop = true }) m)
            (λ slot _. inr (last slot)))
    where
      ready : Manager
      ready =
          (next_generation out me found (change_runtime id (λ q. record q { stop = true }) m).1).1

      last :
          (slot : ExitSlotSnapshot)
          → Extends
              (listener_stopped l ∷ cancelled r.retry_timer m.trace)
              ((cancel_timer r >> (stop_listener r >> behind_listener out me id r slot))
                ready).1.trace
      last slot =
          subst
            (λ t.
              Extends (listener_stopped l ∷ cancelled r.retry_timer t)
                ((cancel_timer r >> (stop_listener r >> behind_listener out me id r slot))
                  ready).1.trace)
            (next_generation-Quiet found (change_runtime id (λ q. record q { stop = true }) m).1
              ∙ change_runtime-Quiet id (λ q. record q { stop = true }) m)
            (stop_then r l (behind_listener out me id r slot) has
              (behind_listener-Grows out me id r slot) ready)

  abbrev pub from_runtime : String → SlotRuntime → Exec Manager Unit
  from_runtime id r = get_slot id >>= λ found. from_row id r found

  from_runtime_first :
      (id : String) (r q : SlotRuntime) (l : Listener) (m u : Manager)
      → r.listener ≡ some l
      → (u ≡ m) × (r ≡ q)
      → ListenerFirst r l m.trace (from_runtime id q u).1.trace
  from_runtime_first id r q l m u has (e, k) =
      subst (λ v. ListenerFirst r l m.trace (from_runtime id q v).1.trace) (sym e)
        (subst (λ v. ListenerFirst r l m.trace (from_runtime id v m).1.trace) k
          (before m.trace (listener_stopped l ∷ cancelled r.retry_timer m.trace) (get_slot id)
            (λ found. from_row id r found) m refl (λ found _. from_row_first id r l found m has)))

  abbrev pub from_start : String → Exec Manager Unit
  from_start id = runtime id >>= λ r. from_runtime id r

  from_start_first :
      (id : String) (r : SlotRuntime) (l : Listener) (m : Manager)
      → Dict.get id m.runtimes ≡ some r
      → r.listener ≡ some l
      → ListenerFirst r l m.trace (from_start id m).1.trace
  from_start_first id r l m there has =
      before m.trace (listener_stopped l ∷ cancelled r.retry_timer m.trace) (runtime id)
        (λ q. from_runtime id q) m (runtime-Quiet id m)
        (λ q e. from_runtime_first id r q l m (runtime id m).1 has (runtime_found id m r q there e))

  -- A slot is not torn down before its listener: where its runtime has a listener, the first thing
  -- that `stop_slot` does outside of the manager, but for cancelling a timer, is to stop it. The
  -- process is ended and the routes are removed behind that, or nothing happens at all.
  pub listener_stops_first :
      (id : String) (m : Manager) (r : SlotRuntime) (l : Listener)
      → Dict.get id m.runtimes ≡ some r
      → r.listener ≡ some l
      → ListenerFirst r l m.trace (stop_slot out me id m).1.trace
  unfolding stop_slot
  listener_stops_first id m r l there has =
      before m.trace (listener_stopped l ∷ cancelled r.retry_timer m.trace)
        (require_managed_slot id) (λ _. from_start id) m (require-Quiet id m)
        (λ _ _.
          subst (λ v. ListenerFirst r l m.trace (from_start id v).1.trace)
            (sym (require_keeps id m)) (from_start_first id r l m there has))

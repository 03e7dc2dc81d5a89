-- ===== src/ExitManager/Lifecycle/Stopped.antt =====
-- ExitManager.stop_slot of vps/exit_manager.py: what is left of a slot that is stopped.
use kui_local_multi_exit.Prelude.{
  ℕ, ◌≡◌, ◌≢◌, refl, sym, String, Bool, true, false, not, Option, none, some, ◌∷◌, Option-cases,
  inl, inr, subst, arith, eq_refl, if◌then◌else◌,
}
use kui_local_multi_exit.Prelude.Dict
use kui_local_multi_exit.Prelude.Dict.{get-put, get-pop}
use kui_local_multi_exit.Prelude.Exec.{
  Exec, Outcome, returned, raised, proceed, pure, gets, after_bind, ◌>>=◌, ◌>>◌,
}
use kui_local_multi_exit.Models.{ExitSlotSnapshot}
use kui_local_multi_exit.Outside.{Outside, process_terminated, process_killed, worker_joined}
use kui_local_multi_exit.Routing
use kui_local_multi_exit.ExitManager.{
  Manager, SlotRuntime, runtime, change_runtime, put_runtime, require_managed_slot, get_slot, emit,
  when, for_some, on_trace, cancel_timer, stop_listener, terminate_process, forget_process,
  is_process,
}
use kui_local_multi_exit.ExitManager.Nodes.{release_node}
use kui_local_multi_exit.ExitManager.Lifecycle.{
  stop_slot, set_runtime, alive, idle_runtime, is_other, join_worker, stop_process, reap_worker,
  next_generation,
}
use kui_local_multi_exit.ExitManager.Lifecycle.StopSteps.{
  finish, tear_down, forget_handles, behind_listener, forget_worker,
}
use kui_local_multi_exit.ExitManager.Lifecycle.StopOrder.{from_row, from_runtime, from_start}

-- A runtime without a listener and without a retry timer.
abbrev pub Quieted : Option SlotRuntime → Type 0
Quieted none = ⊥
Quieted (some q) = (q.listener ≡ none) × (q.retry_timer ≡ none)

abbrev Handles : String → Manager → Type 0
Handles id m = Quieted (Dict.get id m.runtimes)

-- Nothing of the slot is left open, and it holds no node.
abbrev pub IsStopped : String → Manager → Type 0
IsStopped id m = Handles id m × (Dict.get id m.reserved ≡ none)

abbrev Keeps : {A : Type 0} → (Manager → Type 0) → Exec Manager A → Type 0
Keeps P act = (m : Manager) → P m → P (act m).1

abbrev Ends : {B : Type 0} → (Manager → Type 0) → Outcome B × Manager → Type 0
Ends {B} P r = (b : B) → r.0 ≡ returned b → P r.1

Ends-bind :
    {A B : Type 0} (P : Manager → Type 0) (act : Exec Manager A) (k : A → Exec Manager B)
    (m : Manager)
    → ((a : A) → (act m).0 ≡ returned a → Ends P (k a (act m).1))
    → Ends P ((act >>= k) m)
Ends-bind {A} {B} P act k m h = go (act m).0 h
  where
    go :
        (o : Outcome A)
        → ((a : A) → o ≡ returned a → Ends P (k a (act m).1))
        → Ends P (proceed {B = B} o k (act m).1)
    go (returned a) f b x = f a refl b x
    go (raised e) f b x = absurd (cc)

Keeps-bind :
    {A B : Type 0} (P : Manager → Type 0) (act : Exec Manager A) (k : A → Exec Manager B)
    → Keeps P act
    → ((a : A) → Keeps P (k a))
    → Keeps P (act >>= k)
Keeps-bind P act k h g m p = after_bind P act k m (h m p) (λ a _. g a (act m).1 (h m p))

Keeps-when :
    (P : Manager → Type 0) (b : Bool) (act : Exec Manager Unit) → Keeps P act → Keeps P (when b act)
Keeps-when P true act h m p = h m p
Keeps-when P false act h m p = p

Keeps-for_some :
    (P : Manager → Type 0) (o : Option ℕ) (act : ℕ → Exec Manager Unit)
    → ((n : ℕ) → Keeps P (act n))
    → Keeps P (for_some o act)
Keeps-for_some P none act h m p = p
Keeps-for_some P (some n) act h m p = h n m p

changed :
    (id : String) (f : SlotRuntime → SlotRuntime) (m : Manager) (q : SlotRuntime)
    → Dict.get id m.runtimes ≡ some q
    → Dict.get id (change_runtime id f m).1.runtimes ≡ some (f q)
unfolding change_runtime put_runtime
changed id f m q e = ground (arith, get-put id id (f q) m.runtimes, eq_refl id)

missing_raises :
    (id : String) (f : SlotRuntime → SlotRuntime) (m : Manager) (b : Unit {0})
    → Dict.get id m.runtimes ≡ none
    → (change_runtime id f m).0 ≢ returned b
unfolding change_runtime
missing_raises id f m b e x = ground arith

-- A write to the runtime that leaves the listener and the timer alone.
Keeps-change_runtime :
    (id : String) (f : SlotRuntime → SlotRuntime)
    → ((q : SlotRuntime) → Quieted (some q) → Quieted (some (f q)))
    → Keeps (Handles id) (change_runtime id f)
Keeps-change_runtime id f h m p = elim (Option-cases (Dict.get id m.runtimes)) [
  | inl e ↦ absurd (subst Quieted e p)
  | inr (q, e) ↦ subst Quieted (sym (changed id f m q e)) (h q (subst Quieted e p))
]

release_node-IsStopped :
    (id : String) (m : Manager) → Handles id m → IsStopped id (release_node id m).1
unfolding release_node
release_node-IsStopped id m p = (p, rw (get-pop id id m.reserved, eq_refl id) refl)

module _ (out : Outside) (me : ℕ) (id : String) where
  forgets : (m : Manager) → Ends (Handles id) (forget_handles out me id m)
  forgets m b x = elim (Option-cases (Dict.get id m.runtimes)) [
    | inl e ↦ absurd (missing_raises id forgotten m b e x)
    | inr (q, e) ↦ subst Quieted (sym (changed id forgotten m q e)) (refl, refl)
  ]
    where
      forgotten : SlotRuntime → SlotRuntime
      forgotten q = record q { retry_timer = none; listener = none }

  Keeps-terminate_process : (pid : ℕ) → Keeps (Handles id) (terminate_process out id pid)
  unfolding terminate_process
  Keeps-terminate_process pid m p =
      Keeps-bind (Handles id) (when (not (out.terminates m.trace pid)) (emit (process_killed pid)))
        (λ _. change_runtime id (forget_process pid))
        (Keeps-when (Handles id) (not (out.terminates m.trace pid)) (emit (process_killed pid))
          (λ _ k. k))
        (λ _.
          Keeps-change_runtime id (forget_process pid)
            (λ q h. keeps_handles q (is_process pid q.process) h))
        (record m { trace = process_terminated pid ∷ m.trace }) p
    where
      keeps_handles :
          (q : SlotRuntime) (b : Bool)
          → Quieted (some q)
          → Quieted (some (if b then record q { process = none } else q))
      keeps_handles q true h = h
      keeps_handles q false h = h

  Keeps-stop_process : (r : SlotRuntime) → Keeps (Handles id) (stop_process out me id r)
  Keeps-stop_process r =
      Keeps-for_some (Handles id) r.process (λ p. terminate_process out id p)
        Keeps-terminate_process

  same_reserved : (m : Manager) → (forget_worker out me id m).1.reserved ≡ m.reserved
  unfolding change_runtime put_runtime
  same_reserved m = ground arith

  -- What happens behind the release of the node.
  Keeps-finish :
      (r : SlotRuntime) (slot : ExitSlotSnapshot) → Keeps (IsStopped id) (finish out me id r slot)
  Keeps-finish r slot =
      Keeps-bind (IsStopped id) (when slot.enabled (set_runtime out me id idle_runtime >> pure tt))
        (λ _. reap_worker out me id r)
        (Keeps-when (IsStopped id) slot.enabled (set_runtime out me id idle_runtime >> pure tt) (
          Keeps-bind (IsStopped id) (set_runtime out me id idle_runtime) (λ _. pure tt) (λ m p. p)
            (λ _ m p. p)))
        (λ _.
          Keeps-when (IsStopped id) (is_other me r.worker)
            (join_worker out me r.worker
              >> (gets (alive out me r.worker) >>= λ lives.
                  when (not lives) (forget_worker out me id)))
            (Keeps-bind (IsStopped id) (join_worker out me r.worker)
              (λ _. gets (alive out me r.worker) >>= λ lives.
                when (not lives) (forget_worker out me id))
              (Keeps-when (IsStopped id) (is_other me r.worker)
                (for_some r.worker (λ t. emit (worker_joined t)))
                (Keeps-for_some (IsStopped id) r.worker (λ t. emit (worker_joined t)) (λ _ m p. p)))
              (λ _.
                Keeps-bind (IsStopped id) (gets (alive out me r.worker))
                  (λ lives. when (not lives) (forget_worker out me id)) (λ m p. p)
                  (λ lives.
                    Keeps-when (IsStopped id) (not lives) (forget_worker out me id)
                      forgets_worker))))
    where
      forgets_worker : Keeps (IsStopped id) (forget_worker out me id)
      forgets_worker m (p, free) = (
        Keeps-change_runtime id (λ q. record q { worker = none }) (λ q h. h) m p,
        rw (same_reserved m) free,
      )

  Ends-tear_down :
      (r : SlotRuntime) (slot : ExitSlotSnapshot) (m : Manager)
      → Handles id m
      → Ends (IsStopped id) (tear_down out me id r slot m)
  Ends-tear_down r slot m p =
      Ends-bind (IsStopped id) (release_node id)
        (λ _. on_trace (Routing.cleanup out slot) >> finish out me id r slot) m
        (λ _ _.
          Ends-bind (IsStopped id) (on_trace (Routing.cleanup out slot))
            (λ _. finish out me id r slot) (release_node id m).1
            (λ _ _ b _.
              Keeps-finish r slot (on_trace (Routing.cleanup out slot) (release_node id m).1).1
                (release_node-IsStopped id m p)))

  Ends-behind_listener :
      (r : SlotRuntime) (slot : ExitSlotSnapshot) (m : Manager)
      → Ends (IsStopped id) (behind_listener out me id r slot m)
  Ends-behind_listener r slot m =
      Ends-bind (IsStopped id) (forget_handles out me id)
        (λ _. stop_process out me id r >> tear_down out me id r slot) m
        (λ a e.
          Ends-bind (IsStopped id) (stop_process out me id r) (λ _. tear_down out me id r slot)
            (forget_handles out me id m).1
            (λ _ _.
              Ends-tear_down r slot (stop_process out me id r (forget_handles out me id m).1).1
                (Keeps-stop_process r (forget_handles out me id m).1 (forgets m a e))))

  Ends-from_row :
      (r : SlotRuntime) (found : ExitSlotSnapshot) (m : Manager)
      → Ends (IsStopped id) (from_row out me id r found m)
  Ends-from_row r found m =
      Ends-bind (IsStopped id) (change_runtime id (λ q. record q { stop = true }))
        (λ _. next_generation out me found >>= λ slot. release slot) m
        (λ _ _.
          Ends-bind (IsStopped id) (next_generation out me found) (λ slot. release slot)
            (change_runtime id (λ q. record q { stop = true }) m).1
            (λ slot _.
              Ends-bind (IsStopped id) (cancel_timer r)
                (λ _. stop_listener r >> behind_listener out me id r slot) ready
                (λ _ _.
                  Ends-bind (IsStopped id) (stop_listener r) (λ _. behind_listener out me id r slot)
                    (cancel_timer r ready).1
                    (λ _ _.
                      Ends-behind_listener r slot (stop_listener r (cancel_timer r ready).1).1))))
    where
      ready : Manager
      ready =
          (next_generation out me found (change_runtime id (λ q. record q { stop = true }) m).1).1

      release : ExitSlotSnapshot → Exec Manager Unit
      release slot = cancel_timer r >> (stop_listener r >> behind_listener out me id r slot)

  -- A `stop_slot` that returns has left the slot without a listener, without a retry timer and
  -- without a reserved node.
  pub stop_slot-IsStopped :
      (m : Manager)
      → (stop_slot out me id m).0 ≡ returned tt
      → IsStopped id (stop_slot out me id m).1
  unfolding stop_slot
  stop_slot-IsStopped m e =
      Ends-bind (IsStopped id) (require_managed_slot id) (λ _. from_start out me id) m
        (λ _ _.
          Ends-bind (IsStopped id) (runtime id) (λ r. from_runtime out me id r)
            (require_managed_slot id m).1
            (λ r _.
              Ends-bind (IsStopped id) (get_slot id) (λ found. from_row out me id r found)
                (at_runtime m) (λ found _. Ends-from_row r found (at_runtime m))))
        tt e
    where
      at_runtime : Manager → Manager
      at_runtime n = (runtime id (require_managed_slot id n).1).1

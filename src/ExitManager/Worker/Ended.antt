-- ===== src/ExitManager/Worker/Ended.antt =====
-- The `finally` of ExitManager._connect_worker of vps/exit_manager.py: what a worker that ends takes with it.
use kui_local_multi_exit.Prelude.{
  ℕ, ◌≡◌, refl, subst, String, eq_refl, Bool, true, false, not, ◌&&◌, Option, none, some, ◌∷◌,
  arith, eqb,
}
use kui_local_multi_exit.Prelude.Dict
use kui_local_multi_exit.Prelude.Dict.{get-pop}
use kui_local_multi_exit.Prelude.Exec.{
  Exec, Outcome, pure, raise, key_error, Meets, Meets-bind, Meets-pair, Meets-raised, ◌>>◌,
}
use kui_local_multi_exit.Models.{ExitSlotSnapshot, is_serving}
use kui_local_multi_exit.Outside.{Outside, process_terminated, process_killed}
use kui_local_multi_exit.Routing
use kui_local_multi_exit.Store
use kui_local_multi_exit.Store.{find_row}
use kui_local_multi_exit.ExitManager.{
  Manager, SlotRuntime, runtime, change_runtime, put_runtime, emit, get_slot, when, for_some,
  on_trace, is_process, terminate_process, forget_process,
}
use kui_local_multi_exit.ExitManager.Nodes.{release_node}
use kui_local_multi_exit.ExitManager.Worker.{dispose, terminate_own, forget_thread}

-- The store and the reservations are those of `m`.
abbrev pub SameRows : Manager → Manager → Type 0
SameRows m s = (s.store ≡ m.store) × (s.reserved ≡ m.reserved)

-- What is left by a worker that owns its slot's generation or not, at a slot that serves or not.
abbrev pub Left : String → Manager → Bool → Bool → Manager → Type 0
Left id m true false s = (s.store ≡ m.store) × (Dict.get id s.reserved ≡ none)
Left id m true true s = SameRows m s
Left id m false serving s = SameRows m s

module _ (P : Manager → Type 0) (id : String) where
  -- A predicate on the manager that no write to a runtime or to the trace touches.
  abbrev IsStable : Type 0
  IsStable = (s t : Manager) → s.store ≡ t.store → s.reserved ≡ t.reserved → P s → P t

  module _ (stable : IsStable) where
    change_runtime-keeps :
        (f : SlotRuntime → SlotRuntime) (s : Manager)
        → P s
        → Meets (λ u t. P t) P (change_runtime id f s)
    unfolding change_runtime put_runtime
    change_runtime-keeps f s p = go (Dict.get id s.runtimes)
      where
        go :
            (o : Option SlotRuntime)
            → Meets {A = Unit {0}}
                (λ u t. P t)
                P
                (elim o [ none ↦ raise (key_error id) s | some r ↦ put_runtime id (f r) s ])
        go none = p
        go (some r) = stable s _ refl refl p

    when-keeps :
        (b : Bool) (act : Exec Manager Unit) (s : Manager)
        → P s
        → (P s → Meets (λ u t. P t) P (act s))
        → Meets (λ u t. P t) P (when b act s)
    when-keeps true act s p h = h p
    when-keeps false act s p h = p

    terminate-keeps :
        (out : Outside) (pid : ℕ) (s : Manager)
        → P s
        → Meets (λ u t. P t) P (terminate_process out id pid s)
    unfolding terminate_process
    terminate-keeps out pid s p =
        let ends = out.terminates s.trace pid in
        let t = record s { trace = process_terminated pid ∷ s.trace } in
        Meets-bind (when (not ends) (emit (process_killed pid))) t _ _ _ _
          (when-keeps (not ends) (emit (process_killed pid)) t (stable s t refl refl p)
            (λ q. stable t _ refl refl q))
          (λ _ u q. change_runtime-keeps (forget_process pid) u q)

    own-keeps :
        (out : Outside) (me pid : ℕ) (s : Manager)
        → P s
        → Meets (λ u t. P t) P (terminate_own out me id pid s)
    unfolding runtime
    own-keeps out me pid s p =
        Meets-bind (runtime id) s _ _ _ _ (go (Dict.get id s.runtimes)) (λ r t q.
          when-keeps (is_process pid r.process) (terminate_process out id pid) t q
            (λ k. terminate-keeps out pid t k))
      where
        go :
            (o : Option SlotRuntime)
            → Meets {A = SlotRuntime}
                (λ r t. P t)
                P
                (elim o [ none ↦ raise (key_error id) s | some r ↦ pure r s ])
        go none = p
        go (some r) = p

    for_some-keeps :
        (o : Option ℕ) (act : ℕ → Exec Manager Unit) (s : Manager)
        → P s
        → ((pid : ℕ) → Meets (λ u t. P t) P (act pid s))
        → Meets (λ u t. P t) P (for_some o act s)
    for_some-keeps none act s p h = p
    for_some-keeps (some pid) act s p h = h pid

module _ (out : Outside) (me : ℕ) (slot : ExitSlotSnapshot) (process : Option ℕ) (m : Manager) where
  -- The worker's end, once it is known whether it owns its slot's generation, and whether that serves.
  abbrev tail : Bool → Bool → Exec Manager Unit
  tail owns serving = do
    when (owns && not serving) (do
      for_some process (λ p. terminate_process out slot.id p)
      release_node slot.id
      on_trace (Routing.cleanup out slot))
    when (not owns) (for_some process (λ p. terminate_own out me slot.id p))
    change_runtime slot.id (forget_thread out me)

  same_store-IsStable : IsStable (λ s. s.store ≡ m.store) slot.id
  same_store-IsStable s t e f p = cc

  SameRows-IsStable : IsStable (SameRows m) slot.id
  SameRows-IsStable s t e f (p, q) = (cc, cc)

  Left-IsStable : IsStable (Left slot.id m true false) slot.id
  Left-IsStable s t e f (p, q) = (cc, subst (λ d. Dict.get slot.id d ≡ none) f q)

  abbrev pub Leaves : Bool → Bool → Outcome {0} Unit × Manager → Type 0
  Leaves owns serving r = Meets (λ u s. Left slot.id m owns serving s) (λ s. s.store ≡ m.store) r

  forgets_thread :
      (s : Manager)
      → SameRows m s
      → Meets
          (λ u t. SameRows m t)
          (λ t. t.store ≡ m.store)
          (change_runtime slot.id (forget_thread out me) s)
  forgets_thread s p =
      Meets-raised (change_runtime slot.id (forget_thread out me) s) _ _ _
        (change_runtime-keeps (SameRows m) slot.id SameRows-IsStable (forget_thread out me) s p)
        (λ t q. q.0)

  released :
      (s : Manager)
      → s.store ≡ m.store
      → Meets
          (λ u t. Left slot.id m true false t)
          (λ t. t.store ≡ m.store)
          ((release_node slot.id >> on_trace (Routing.cleanup out slot)) s)
  unfolding release_node
  released s e =
      Meets-pair (Left slot.id m true false) (λ t. t.store ≡ m.store) _ _
        (e, ground (arith, get-pop slot.id slot.id s.reserved, eq_refl slot.id)) e

  tail-Leaves :
      (owns serving : Bool) (s : Manager) → SameRows m s → Leaves owns serving (tail owns serving s)
  tail-Leaves true true s p = forgets_thread s p
  tail-Leaves true false s (p, q) =
      Meets-bind clear s _ _ _ _
        (Meets-bind (for_some process (λ pid. terminate_process out slot.id pid)) s
          (λ u t. t.store ≡ m.store) _ _ _
          (for_some-keeps (λ t. t.store ≡ m.store) slot.id same_store-IsStable process _ s p
            (λ pid.
              terminate-keeps (λ t. t.store ≡ m.store) slot.id same_store-IsStable out pid s p))
          (λ _ t e. released t e))
        (λ _ t k.
          Meets-raised (change_runtime slot.id (forget_thread out me) t) _ _ _
            (change_runtime-keeps (Left slot.id m true false) slot.id Left-IsStable
              (forget_thread out me) t k)
            (λ u l. l.0))
    where
      clear : Exec Manager Unit
      clear = do
        for_some process (λ pid. terminate_process out slot.id pid)
        release_node slot.id
        on_trace (Routing.cleanup out slot)
  tail-Leaves false serving s p =
      Meets-bind (for_some process (λ pid. terminate_own out me slot.id pid)) s _ _ _ _
        (Meets-raised (for_some process (λ pid. terminate_own out me slot.id pid) s) _ _
          (λ t. t.store ≡ m.store)
          (for_some-keeps (SameRows m) slot.id SameRows-IsStable process _ s p
            (λ pid. own-keeps (SameRows m) slot.id SameRows-IsStable out me pid s p))
          (λ t q. q.0))
        (λ _ t q. forgets_thread t q)

  reads_row :
      (r : ExitSlotSnapshot)
      → find_row slot.id m.store.slots ≡ some r
      → Meets (λ c s. (r ≡ c) × SameRows m s) (λ s. s.store ≡ m.store) (get_slot slot.id m)
  unfolding Store.get_slot
  reads_row r e = go (find_row slot.id m.store.slots) e
    where
      go :
          (o : Option ExitSlotSnapshot)
          → o ≡ some r
          → Meets {A = ExitSlotSnapshot}
              (λ c s. (r ≡ c) × SameRows m s)
              (λ s. s.store ≡ m.store)
              (
                (elim o as (λ x. Outcome ExitSlotSnapshot × Store.Store) [
                  | none ↦ raise (key_error slot.id) m.store
                  | some c ↦ pure c m.store
                ]).0,
                m,
              )
      go none f = refl
      go (some c) f = (cc, (refl, refl))

  -- When a worker ends, it writes nothing to the store. If its generation is the slot's and the slot
  -- does not serve, no node is reserved for the slot once it returns; otherwise it leaves all
  -- reservations as they are, so that a late worker does not take the node of the one that
  -- follows. The slot is there.
  pub dispose-Leaves :
      (generation : ℕ) (r : ExitSlotSnapshot)
      → find_row slot.id m.store.slots ≡ some r
      → Leaves
          (eqb r.generation generation)
          (is_serving r.state)
          (dispose out me slot generation process m)
  unfolding dispose
  dispose-Leaves generation r e =
      Meets-bind (get_slot slot.id) m _ _ _ _ (reads_row r e) (λ c s (same, rows).
        subst
          (λ x.
            Leaves (eqb r.generation generation) (is_serving r.state)
              (tail (eqb x.generation generation) (is_serving x.state) s))
          same (tail-Leaves (eqb r.generation generation) (is_serving r.state) s rows))

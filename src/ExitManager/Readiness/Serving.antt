-- ===== src/ExitManager/Readiness/Serving.antt =====
-- ExitManager.commit_ready of vps/exit_manager.py: a commit that succeeds leaves the listener to the slot.
use kui_local_multi_exit.Prelude.{
  ℕ, ◌≡◌, refl, false≢true, sym, subst, String, ◌<>◌, eq_refl, Bool, true, false, not, Option, none,
  some, ◌∷◌, arith, if◌then◌else◌,
}
use kui_local_multi_exit.Prelude.Dict
use kui_local_multi_exit.Prelude.Dict.{get-put}
use kui_local_multi_exit.Prelude.Exec.{
  Exec, Outcome, pure, raise, attempt, Failure, key_error, Meets, Meets-bind, Meets-if,
  Meets-attempt, Meets-pair, Meets-any, ◌>>◌,
}
use kui_local_multi_exit.Json.{Fields}
use kui_local_multi_exit.Models.{ExitSlotSnapshot}
use kui_local_multi_exit.Outside.{Outside, Listener, listener_stopped}
use kui_local_multi_exit.Store.Runtime
use kui_local_multi_exit.Store.History
use kui_local_multi_exit.ExitManager.{
  Manager, SlotRuntime, runtime, change_runtime, put_runtime, on_store, emit, get_slot,
  start_listener, stop_listener, record_event,
}
use kui_local_multi_exit.ExitManager.Readiness.{
  commit_ready, ready_values, drop_listener, forget_listener, publish, swap_listener, is_halted,
  is_superseded, node_country,
}

-- The slot's runtime has this listener.
abbrev pub HasListener : Listener → Option SlotRuntime → Type 0
HasListener l none = ⊥
HasListener l (some q) = q.listener ≡ some l

abbrev pub Holds : String → Listener → Manager → Type 0
Holds id l m = HasListener l (Dict.get id m.runtimes)

-- `Meets` where only a result of true says something.
abbrev pub Serves : String → Listener → Outcome Bool × Manager → Type 0
Serves id l r = Meets (λ done m. done ≡ true → Holds id l m) (λ m. Unit) r

takes_listener :
    (id : String) (l : Listener) (m : Manager)
    → Meets
        (λ u s. Holds id l s)
        (λ s. Unit)
        (change_runtime id (λ q. record q { listener = some l }) m)
unfolding change_runtime put_runtime
takes_listener id l m = go (Dict.get id m.runtimes)
  where
    go :
        (o : Option SlotRuntime)
        → Meets {A = Unit {0}}
            (λ u s. Holds id l s)
            (λ s. Unit)
            (elim o [
              | none ↦ raise (key_error id) m
              | some q ↦ put_runtime id (record q { listener = some l }) m
            ])
    go none = tt
    go (some q) =
        let same : Dict.get id (Dict.put id (record q { listener = some l }) m.runtimes)
            ≡ some (record q { listener = some l }) =
          ground (arith, get-put id id (record q { listener = some l }) m.runtimes, eq_refl id) in
        subst (HasListener l) (sym same) refl

module _ (out : Outside) (id : String) (l : Listener) where
  swap-Serves : (m : Manager) → Serves id l (swap_listener out id l m)
  swap-Serves m = Meets-bind (runtime id) m _ _ _ _ (Meets-any (runtime id m)) (λ r s _.
      Meets-bind (stop_listener r) s _ _ _ _ (Meets-any (stop_listener r s)) (λ _ t _.
        Meets-bind (change_runtime id (λ q. record q { listener = some l })) t _ _ _ _
          (takes_listener id l t) (λ _ u held _. held)))

  updated-Serves :
      (updated : Option ExitSlotSnapshot) (m : Manager)
      → Serves id l (
          (elim updated as (λ x. Exec Manager Bool) [
            | none ↦ drop_listener out l
            | some _ ↦ swap_listener out id l
          ])
            m)
  updated-Serves none m = λ e. absurd (false≢true e)
  updated-Serves (some r) m = swap-Serves m

  publish-Serves :
      (generation : ℕ) (entry egress : String) (node result : Fields) (m : Manager)
      → Serves id l (publish out id generation entry egress node result l m)
  unfolding publish
  publish-Serves generation entry egress node result m =
      Meets-bind (start_listener out l) m _ _ _ _ (Meets-any (start_listener out l m)) (λ _ s _.
        Meets-bind (is_halted out id) s _ _ _ _ (Meets-any (is_halted out id s)) (λ halted t _.
          Meets-if halted _ _ t _ _ (λ _ e. absurd (false≢true e))
            (λ _.
              Meets-bind (on_store out (History.append_check_result id generation result)) t _ _ _ _
                (Meets-any (on_store out (History.append_check_result id generation result) t))
                (λ _ u _.
                  Meets-bind write u _ _ _ _ (Meets-any (write u))
                    (λ updated v _. updated-Serves updated v)))))
    where
      write : Exec Manager (Option ExitSlotSnapshot)
      write =
          on_store out (
            Runtime.set_runtime_if_generation id generation (ready_values entry egress node result))

  committed-Serves :
      (done : Bool) (egress entry : String) (m : Manager)
      → (done ≡ true → Holds id l m)
      → Serves id l (
          (if not done
              then pure false
              else (do record_event out id "connected" (entry <> (" -> " <> egress)); pure true))
            m)
  committed-Serves false egress entry m held = λ e. absurd (false≢true e)
  committed-Serves true egress entry m held =
      Meets-bind (record_event out id "connected" (entry <> (" -> " <> egress))) m
        (λ u s. Holds id l s) _ _ _ (Meets-pair (Holds id l) (λ s. Unit) _ _ (held refl) tt)
        (λ _ s p _. p)

  abbrev undo : Failure → Exec Manager Bool
  undo e = do emit (listener_stopped l); change_runtime id (forget_listener out l); raise e

  undo-Serves : (e : Failure) (m : Manager) → Serves id l (undo e m)
  undo-Serves e m =
      let s = record m { trace = listener_stopped l ∷ m.trace } in
      Meets-bind (change_runtime id (forget_listener out l)) s _ _ _ _
        (Meets-any (change_runtime id (forget_listener out l) s)) (λ _ t _. tt)

  pub commit-Serves :
      (generation : ℕ) (entry egress : String) (node result : Fields) (m : Manager)
      → Serves id l (commit_ready out id generation entry egress node result (some l) m)
  unfolding commit_ready
  commit-Serves generation entry egress node result m =
      Meets-bind (get_slot id) m _ _ _ _ (Meets-any (get_slot id m)) (λ current s _.
        Meets-if (is_superseded current generation (node_country node)) _ _ s _ _
          (λ _ e. absurd (false≢true e))
          (λ _.
            Meets-bind (is_halted out id) s _ _ _ _ (Meets-any (is_halted out id s)) (λ halted t _.
              Meets-if halted _ _ t _ _ (λ _ e. absurd (false≢true e))
                (λ _.
                  Meets-bind (attempt (publish out id generation entry egress node result l) undo) t
                    _ _ _ _
                    (Meets-attempt (publish out id generation entry egress node result l) undo t _ _
                      _ (publish-Serves generation entry egress node result t)
                      (λ e u _. undo-Serves e u))
                    (λ done u held. committed-Serves done egress entry u held)))))

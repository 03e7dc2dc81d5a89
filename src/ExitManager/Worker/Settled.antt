-- ===== src/ExitManager/Worker/Settled.antt =====
-- _connect_worker and commit_ready of vps/exit_manager.py: no listener of a dial is lost.
use kui_local_multi_exit.Prelude.{
  ℕ, suc, ◌≡◌, refl, false≢true, subst, String, Bool, true, false, not, ◌||◌, Option, none, some,
  ◌∷◌, ◌⊎◌, inl, inr, eqb, if◌then◌else◌,
}
use kui_local_multi_exit.Prelude.Dict
use kui_local_multi_exit.Prelude.Dict.{get-put}
use kui_local_multi_exit.Prelude.Exec.{
  Exec, Outcome, returned, pure, raise, key_error, runtime_error, Meets, Meets-bind, Meets-if,
  Meets-attempt, Meets-map, Meets-pair, Meets-raised, Meets-any, ◌>>=◌, ◌>>◌,
}
use kui_local_multi_exit.Json.{Fields, assign, obj, num}
use kui_local_multi_exit.Prelude.Int.{pos}
use kui_local_multi_exit.Models.{ExitSlotSnapshot}
use kui_local_multi_exit.Outside.{Outside, Listener, Trace, listener_stopped, seconds}
use kui_local_multi_exit.Vpngate.{Probes, probe_targets}
use kui_local_multi_exit.Store.History
use kui_local_multi_exit.ExitManager.{
  Manager, SlotRuntime, runtime, on_store, emit, get_slot, when, make_listener, start_listener,
  worker_is_stale,
}
use kui_local_multi_exit.ExitManager.Health.{ClientCheck, health_of, is_stale, check_client_targets}
use kui_local_multi_exit.ExitManager.Readiness.{commit_ready, record_failed_check}
use kui_local_multi_exit.ExitManager.Readiness.Serving.{Holds, commit-Serves}
use kui_local_multi_exit.ExitManager.Worker.{
  run_probes, probes_or_raise, targets_failed, bring_up, serve_result, conclude_dial, result_of,
}

-- No listener has been made since.
abbrev IsUnmade : Manager → Manager → Type 0
IsUnmade m s = s.next_serial ≡ m.next_serial

abbrev pub dial_listener : ExitSlotSnapshot → ℕ → Listener
dial_listener slot serial = record {
  slot_id = slot.id;
  host = "0.0.0.0";
  port = slot.proxy_port;
  interface = slot.tunnel_name;
  mark = slot.mark;
  serial = serial;
}

-- What is left of the listener: the slot's runtime has it, or it is the last thing that was stopped, or it
-- was never made.
abbrev pub Served : ExitSlotSnapshot → Manager → Bool → Manager → Type 0
Served slot m true s = Holds slot.id (dial_listener slot m.next_serial) s
Served slot m false s = IsUnmade m s

abbrev pub IsStoppedLast : Listener → Trace → Type 0
IsStoppedLast l t = (u : Trace) × (t ≡ listener_stopped l ∷ u)

abbrev pub GivenUp : ExitSlotSnapshot → Manager → Manager → Type 0
GivenUp slot m s = IsStoppedLast (dial_listener slot m.next_serial) s.trace ⊎ IsUnmade m s

abbrev pub Settled : ExitSlotSnapshot → Manager → Outcome Bool × Manager → Type 0
Settled slot m r = Meets (Served slot m) (GivenUp slot m) r

module _ (out : Outside) (me : ℕ) (slot : ExitSlotSnapshot) (generation : ℕ) where
  abbrev Keeps : {A : Type 0} → Manager → Outcome A × Manager → Type 0
  Keeps m r = Meets (λ a s. IsUnmade m s) (IsUnmade m) r

  module _ (m : Manager) where
    Keeps-runtime : (s : Manager) → IsUnmade m s → Keeps m (runtime slot.id s)
    unfolding runtime
    Keeps-runtime s p = go (Dict.get slot.id s.runtimes)
      where
        go :
            (o : Option SlotRuntime)
            → Keeps {A = SlotRuntime} m
                (elim o [ none ↦ raise (key_error slot.id) s | some r ↦ pure r s ])
        go none = p
        go (some r) = p

    Keeps-stale :
        (stopped : Bool) (s : Manager)
        → IsUnmade m s
        → Keeps m (worker_is_stale slot.id generation stopped s)
    unfolding worker_is_stale
    Keeps-stale stopped s p = go (s.shutdown || stopped)
      where
        row : Keeps m (
            (get_slot slot.id >>= λ current.
            pure (not current.enabled || not (eqb current.generation generation)))
              s)
        row =
            Meets-bind (get_slot slot.id) s _ _ _ _ (Meets-pair (IsUnmade m) (IsUnmade m) _ s p p)
              (λ _ t q. q)

        go :
            (b : Bool)
            → Keeps m (
                if b
                then (returned true, s)
                else (get_slot slot.id >>= λ current.
                      pure (not current.enabled || not (eqb current.generation generation)))
                    s)
        go true = p
        go false = row

    Keeps-is_stale : (s : Manager) → IsUnmade m s → Keeps m (is_stale out me slot.id generation s)
    unfolding is_stale
    Keeps-is_stale s p =
        Meets-bind (runtime slot.id) s _ _ _ _ (Keeps-runtime s p) (λ r t q. Keeps-stale r.stop t q)

    Keeps-probes : (s : Manager) → IsUnmade m s → Keeps m (run_probes out me slot s)
    Keeps-probes s p =
        go (probe_targets out slot.tunnel_name _ s.trace).0
          (record s { trace = (probe_targets out slot.tunnel_name _ s.trace).1 }) p
      where
        go : (o : Option Probes) (t : Manager) → IsUnmade m t → Keeps m (probes_or_raise out me o t)
        go none t q = q
        go (some r) t q = q

    Keeps-record :
        (result : Fields) (s : Manager)
        → IsUnmade m s
        → Keeps m (record_failed_check out slot.id generation result s)
    unfolding record_failed_check
    Keeps-record result s p =
        Meets-bind (get_slot slot.id) s _ _ _ _ (Meets-pair (IsUnmade m) (IsUnmade m) _ s p p)
          (λ current t q.
            Meets-if (not current.enabled || not (eqb current.generation generation)) _ _ t _ _
              (λ _. q)
              (λ _.
                Meets-bind (on_store out (History.append_check_result slot.id generation result)) t
                  _ _ _ _ (Meets-pair (IsUnmade m) (IsUnmade m) _ _ q q) (λ _ u r. r)))

    failed-Settled :
        (endpoint : String) (result : Fields) (s : Manager)
        → IsUnmade m s
        → Settled slot m (targets_failed out me slot generation endpoint result s)
    failed-Settled endpoint result s p =
        Meets-bind (record_failed_check out slot.id generation result) s _ _ _ _
          (Meets-raised (record_failed_check out slot.id generation result s) _ _ (GivenUp slot m)
            (Keeps-record result s p) (λ t q. inr q))
          (λ _ t q. inr q)

  brought_up :
      (id : String) (l : Listener) (done : Bool) (m : Manager)
      → (done ≡ true → Holds id l m)
      → Meets
          (λ d s. (d ≡ true) × Holds id l s)
          (λ s. Unit)
          ((if done
              then pure true
              else raise (runtime_error "slot configuration changed during dial"))
            m)
  brought_up id l true m held = (refl, held refl)
  brought_up id l false m held = tt

  bring_up-Serves :
      (endpoint egress : String) (node result : Fields) (l : Listener) (m : Manager)
      → Meets
          (λ done s. (done ≡ true) × Holds slot.id l s)
          (λ s. Unit)
          (bring_up out me slot generation endpoint egress node result l m)
  unfolding bring_up
  bring_up-Serves endpoint egress node result l m =
      Meets-bind (start_listener out l) m _ _ _ _ (Meets-any (start_listener out l m)) (λ _ s _.
        Meets-bind (check_client_targets out me slot) s _ _ _ _
          (Meets-any (check_client_targets out me slot s))
          (λ c t _. Meets-bind (report c) t _ _ _ _ (Meets-any (report c t)) (λ _ u _.
            Meets-bind (commit c u) u _ _ _ _
              (commit-Serves out slot.id l generation endpoint egress node (final c u) u)
              (λ done v held. brought_up slot.id l done v held))))
    where
      report : ClientCheck → Exec Manager Unit
      report c = when (not c.ok) (
          record_failed_check out slot.id generation (assign "health" (obj (health_of c)) result)
          >> pure tt)

      final : ClientCheck → Manager → Fields
      final c u =
          assign "health"
            (obj (assign "checked_at" (num (pos (seconds (out.now u.trace)))) (health_of c))) result

      commit : ClientCheck → Manager → Exec Manager Bool
      commit c u = commit_ready out slot.id generation endpoint egress node (final c u) (some l)

  module _ (m : Manager) where
    listener_kept :
        (done : Bool) (s : Manager)
        → done ≡ true
        → Holds slot.id (dial_listener slot m.next_serial) s
        → Served slot m done s
    listener_kept true s e held = held
    listener_kept false s e held = absurd (false≢true e)

    serve-Settled :
        (endpoint egress : String) (node result : Fields) (s : Manager)
        → IsUnmade m s
        → Settled slot m (serve_result out me slot generation endpoint egress node result s)
    unfolding serve_result make_listener
    serve-Settled endpoint egress node result s p =
        let l = dial_listener slot s.next_serial in
        let s' = record s { next_serial = suc s.next_serial } in
        let run = bring_up out me slot generation endpoint egress node result l in
        Meets-attempt run (λ e. do emit (listener_stopped l); raise e) s' (Served slot m)
          (λ _. Unit) (GivenUp slot m)
          (Meets-map (run s') _ _ _ (bring_up-Serves endpoint egress node result l s')
            (λ done u (e, held).
              listener_kept done u e (subst (λ n. Holds slot.id (dial_listener slot n) u) p held)))
          (λ e u _. inl (
            subst (λ n. IsStoppedLast (dial_listener slot n) (listener_stopped l ∷ u.trace)) p
              (u.trace, refl)))

    -- A worker that goes from the target probes to the commit loses no listener. Where it returns true, the
    -- slot's runtime has the listener that was made for the dial; where it raises, that
    -- listener is the last thing that was stopped, or none was made; and none was made where it
    -- returns false.
    pub conclude_dial-Settled :
        (endpoint egress : String) (node residential : Fields)
        → Settled slot m (conclude_dial out me slot generation endpoint egress node residential m)
    unfolding conclude_dial
    conclude_dial-Settled endpoint egress node residential =
        Meets-bind (run_probes out me slot) m _ _ _ _
          (Meets-raised (run_probes out me slot m) _ _ (GivenUp slot m) (Keeps-probes m m refl)
            (λ t q. inr q))
          (λ p s made.
            Meets-bind (is_stale out me slot.id generation) s _ _ _ _
              (Meets-raised (is_stale out me slot.id generation s) _ _ (GivenUp slot m)
                (Keeps-is_stale m s made) (λ t q. inr q))
              (λ stale t unmade.
                Meets-if stale _ _ t _ _ (λ _. unmade)
                  (λ _.
                    Meets-if (not p.accepted) _ _ t _ _
                      (λ _. failed-Settled m endpoint (result_of residential p) t unmade)
                      (λ _.
                        serve-Settled endpoint egress node (result_of residential p) t unmade))))

-- ===== src/ExitManager/Diagnosis/Shared.antt =====
-- ExitManager._handle_probe_failure of vps/exit_manager.py: an outage of the host tears down no tunnel.
use kui_local_multi_exit.Prelude.{
  ℕ, ◌≡◌, refl, String, ◌<>◌, Bool, true, false, ◌||◌, some, ◌∷◌, ◌⊎◌, inl, inr, arith,
  if◌then◌else◌, ◌∙◌, sym, subst,
}
use kui_local_multi_exit.Prelude.Dict
use kui_local_multi_exit.Prelude.Exec.{Exec, returned, proceed, pure, gets, after_bind, ◌>>=◌, ◌>>◌}
use kui_local_multi_exit.Json.{Fields, lookup_true}
use kui_local_multi_exit.Models.{ExitSlotSnapshot}
use kui_local_multi_exit.Outside.{Outside, ran}
use kui_local_multi_exit.Vpngate.{probe_health_reference, reference_command}
use kui_local_multi_exit.Store
use kui_local_multi_exit.Store.{Store, find_row}
use kui_local_multi_exit.ExitManager.{
  Manager, SlotRuntime, runtime, worker_is_stale, record_event, get_slot,
}
use kui_local_multi_exit.ExitManager.Lifecycle.Retry.{handle_connection_failure}
use kui_local_multi_exit.ExitManager.Health.{is_stale}
use kui_local_multi_exit.ExitManager.Diagnosis.{
  reference, retain_tunnel, handle_probe_failure, process_gone,
}

-- The exits are as they were: no process, listener, worker, timer or reservation has changed, and
-- nothing was done outside but for one request at most.
pub record Retained (before after : Manager) : Type 0 where
  pub runtimes : after.runtimes ≡ before.runtimes
  pub reserved : after.reserved ≡ before.reserved
  pub pool : after.pool ≡ before.pool
  pub trace : (after.trace ≡ before.trace) ⊎ (after.trace ≡ ran (reference_command) ∷ before.trace)

module _ (out : Outside) (me : ℕ) where
  -- The diagnosis itself asks at most one question.
  pub reference_asks :
      (m : Manager)
      → ((reference out me m).1.runtimes ≡ m.runtimes)
        × ((reference out me m).1.reserved ≡ m.reserved)
        × ((reference out me m).1.pool ≡ m.pool)
        × ((reference out me m).1.shutdown ≡ m.shutdown)
        × ((reference out me m).1.store ≡ m.store)
        × (((reference out me m).1.trace ≡ m.trace)
            ⊎ ((reference out me m).1.trace ≡ ran (reference_command) ∷ m.trace))
  unfolding reference probe_health_reference
  reference_asks m = ground arith

  reference_told :
      (m : Manager) (found : Fields)
      → (reference out me m).0 ≡ returned found
      → found ≡ (reference out me m).1.reference_result
  unfolding reference probe_health_reference
  reference_told m found e = ground arith

  worker_is_stale-keeps :
      (id : String) (generation : ℕ) (stopped : Bool) (m : Manager)
      → (worker_is_stale id generation stopped m).1 ≡ m
  unfolding worker_is_stale Store.get_slot
  worker_is_stale-keeps id generation stopped m = ground arith

  runtime-keeps : (id : String) (m : Manager) → (runtime id m).1 ≡ m
  unfolding runtime
  runtime-keeps id m = ground arith

  is_stale-keeps :
      (id : String) (generation : ℕ) (m : Manager) → (is_stale out me id generation m).1 ≡ m
  unfolding is_stale
  is_stale-keeps id generation m =
      after_bind (λ n. n ≡ m) (runtime id) (λ r. worker_is_stale id generation r.stop) m
        (runtime-keeps id m)
        (λ r _. worker_is_stale-keeps id generation r.stop (runtime id m).1 ∙ runtime-keeps id m)

  runtime_there :
      (id : String) (m : Manager) (q : SlotRuntime)
      → Dict.get id m.runtimes ≡ some q
      → runtime id m ≡ (returned q, m)
  unfolding runtime
  runtime_there id m q e = ground arith

  retain_tunnel-keeps :
      (id : String) (generation : ℕ) (error : String) (found : Fields) (r : ExitSlotSnapshot)
      (m : Manager)
      → ((retain_tunnel out me id generation error found r m).1.runtimes ≡ m.runtimes)
        × ((retain_tunnel out me id generation error found r m).1.reserved ≡ m.reserved)
        × ((retain_tunnel out me id generation error found r m).1.pool ≡ m.pool)
        × ((retain_tunnel out me id generation error found r m).1.trace ≡ m.trace)
  unfolding retain_tunnel
  retain_tunnel-keeps id generation error found r m = ground arith

  -- The decision of `_handle_probe_failure`, once the slot is read again.
  abbrev decide : String → ℕ → String → Fields → ExitSlotSnapshot → Bool → Exec Manager Bool
  decide id generation error found current late = do
    r ← runtime id
    gone ← gets (process_gone out me r)
    if late
        then pure false
        else if lookup_true "ok" found || gone
        then (do
          record_event out id "health_check_failed" (error <> ", triggering retry")
          handle_connection_failure out me id generation error current.entry_ip false
          pure true)
        else (do retain_tunnel out me id generation error found current; pure false)

  decide_retains :
      (id : String) (generation : ℕ) (error : String) (found : Fields) (r : ExitSlotSnapshot)
      (late : Bool) (m : Manager) (q : SlotRuntime)
      → Dict.get id m.runtimes ≡ some q
      → lookup_true "ok" found ≡ false
      → process_gone out me q m ≡ false
      → ((decide id generation error found r late m).1 ≡ m)
        ⊎ ((decide id generation error found r late m).1
            ≡ (retain_tunnel out me id generation error found r m).1)
  decide_retains id generation error found r true m q there down lives =
      rw (runtime_there id m q there) (inl refl)
  decide_retains id generation error found r false m q there down lives =
      rw (runtime_there id m q there, down, lives) (inr retained)
    where
      retained :
          (proceed
            (retain_tunnel out me id generation error found r m).0
            (λ _. pure false)
            (retain_tunnel out me id generation error found r m).1).1
          ≡ (retain_tunnel out me id generation error found r m).1
      retained =
          after_bind (λ n. n ≡ (retain_tunnel out me id generation error found r m).1)
            (retain_tunnel out me id generation error found r) (λ _. pure false) m refl
            (λ _ _. refl)

  reference-Retained : (m : Manager) → Retained m (reference out me m).1
  reference-Retained m =
      let (a, b, c, d, e, f) = reference_asks m in
      record { runtimes = a; reserved = b; pool = c; trace = f }

  then-Retained :
      (m : Manager) (id : String) (generation : ℕ) (error : String) (found : Fields)
      (r : ExitSlotSnapshot) (u v : Manager)
      → Retained m u
      → (v ≡ u) ⊎ (v ≡ (retain_tunnel out me id generation error found r u).1)
      → Retained m v
  then-Retained m id generation error found r u v k (inl e) = subst (Retained m) (sym e) k
  then-Retained m id generation error found r u v k (inr e) = subst (Retained m) (sym e) (record {
    runtimes = ground (arith, k.runtimes, retain_tunnel-keeps id generation error found r u);
    reserved = ground (arith, k.reserved, retain_tunnel-keeps id generation error found r u);
    pool = ground (arith, k.pool, retain_tunnel-keeps id generation error found r u);
    trace = ground (arith, k.trace, retain_tunnel-keeps id generation error found r u);
  })

  -- What `_handle_probe_failure` does behind the reference.
  abbrev reread : String → ℕ → String → Fields → Exec Manager Bool
  reread id generation error found = do
    current ← get_slot id
    late ← is_stale out me id generation
    decide id generation error found current late

  reread-Retained :
      (id : String) (generation : ℕ) (error : String) (m u : Manager) (q : SlotRuntime)
      (found : Fields)
      → Retained m u
      → Dict.get id u.runtimes ≡ some q
      → lookup_true "ok" found ≡ false
      → process_gone out me q u ≡ false
      → Retained m (reread id generation error found u).1
  reread-Retained id generation error m u q found kept there down lives =
      after_bind (Retained m) (get_slot id)
        (λ current.
          is_stale out me id generation >>= λ late. decide id generation error found current late)
        u kept
        (λ current _.
          after_bind (Retained m) (is_stale out me id generation)
            (λ late. decide id generation error found current late) u
            (subst (Retained m) (sym (is_stale-keeps id generation u)) kept)
            (λ late _.
              subst (λ v. Retained m (decide id generation error found current late v).1)
                (sym (is_stale-keeps id generation u))
                (then-Retained m id generation error found current u
                  (decide id generation error found current late u).1 kept
                  (decide_retains id generation error found current late u q there down lives))))

  -- A failed probe changes no exit as long as the host's own reference request fails too and the
  -- process of the slot lives: no tunnel is torn down, no retry is scheduled and no node is
  -- penalised. The runtime of the slot is there.
  pub outage_keeps_exits :
      (id : String) (generation : ℕ) (error : String) (m : Manager) (q : SlotRuntime)
      → Dict.get id m.runtimes ≡ some q
      → lookup_true "ok" (reference out me m).1.reference_result ≡ false
      → process_gone out me q (reference out me m).1 ≡ false
      → Retained m (handle_probe_failure out me id generation error m).1
  unfolding handle_probe_failure
  outage_keeps_exits id generation error m q there down lives =
      after_bind (Retained m) (is_stale out me id generation)
        (λ stale.
          if stale
          then pure false
          else (reference out me >>= λ found. reread id generation error found))
        m (subst (Retained m) (sym (is_stale-keeps id generation m)) unchanged)
        (λ stale _.
          subst
            (λ v.
              Retained m
                ((if stale
                    then pure false
                    else (reference out me >>= λ found. reread id generation error found))
                  v).1)
            (sym (is_stale-keeps id generation m)) (go stale))
    where
      unchanged : Retained m m
      unchanged = record { runtimes = refl; reserved = refl; pool = refl; trace = inl refl }

      go :
          (b : Bool)
          → Retained m
              ((if b
                  then pure false
                  else (reference out me >>= λ found. reread id generation error found))
                m).1
      go true = unchanged
      go false =
          after_bind (Retained m) (reference out me) (λ found. reread id generation error found) m
            (reference-Retained m)
            (λ found e.
              reread-Retained id generation error m (reference out me m).1 q found
                (reference-Retained m) (ground (arith, reference_asks m))
                (cc (reference_told m found e, down)) lives)

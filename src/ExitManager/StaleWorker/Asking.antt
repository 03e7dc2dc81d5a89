-- ===== src/ExitManager/StaleWorker/Asking.antt =====
-- What a worker whose generation has passed may still do outside, for vps/exit_manager.py and probe_targets of
-- vps/vpngate.py.
use kui_local_multi_exit.Prelude.{
  ℕ, ◌≡◌, ◌-◌, String, Option, none, some, List, [], ◌∷◌, ◌⊎◌, inl, inr, Option-cases,
}
use kui_local_multi_exit.Outside.{
  Outside, Listener, Effect, Trace, RunResult, RunError, ran, process_terminated, process_killed,
}
use kui_local_multi_exit.Outside
use kui_local_multi_exit.Vpngate.{
  probe_each, probe_targets, targets, probe_command, Attempt, attempt_of,
}

-- An effect that such a worker may still have: a command that asks, or the end of its own process.
abbrev pub IsOwn : ℕ → Effect → Type 0
IsOwn pid (ran c) = Unit
IsOwn pid (process_terminated p) = p ≡ pid
IsOwn pid (process_killed p) = p ≡ pid
IsOwn pid (Outside.listener_started l) = ⊥
IsOwn pid (Outside.listener_stopped l) = ⊥
IsOwn pid (Outside.worker_started w j g) = ⊥
IsOwn pid (Outside.worker_joined w) = ⊥
IsOwn pid (Outside.timer_started t) = ⊥
IsOwn pid (Outside.timer_cancelled t) = ⊥

-- The second trace goes on from the first one with such effects only.
pub data GoesOn (pid : ℕ) (t : Trace) : Trace → Type 0 where
  same : GoesOn pid t t
  one_more : {u : Trace} {e : Effect} → GoesOn pid t u → IsOwn pid e → GoesOn pid t (e ∷ u)

pub GoesOn-trans : (pid : ℕ) (t u v : Trace) → GoesOn pid t u → GoesOn pid u v → GoesOn pid t v
GoesOn-trans pid t u _ g same = g
GoesOn-trans pid t u _ g (one_more h own) = one_more (GoesOn-trans pid t u _ g h) own

probe_each-GoesOn :
    (out : Outside) (pid : ℕ) (interface : String) (urls : List String) (t : Trace)
    → GoesOn pid t (probe_each out interface urls t).1
unfolding probe_each
probe_each-GoesOn out pid interface [] t = same
probe_each-GoesOn out pid interface (u ∷ us) t =
    let c = probe_command interface u in
    let t' = ran c ∷ t in
    let first : GoesOn pid t t' = one_more same tt in
    let rest = GoesOn-trans pid t t' _ first (probe_each-GoesOn out pid interface us t') in
    go (out.curl t c) first rest
  where
    go :
        (o : RunResult ⊎ RunError)
        → GoesOn pid t (ran (probe_command interface u) ∷ t)
        → GoesOn pid t (probe_each out interface us (ran (probe_command interface u) ∷ t)).1
        → GoesOn pid t
            (elim o as (λ x. Option (List Attempt) × Trace) [
              | inr e ↦ (none, ran (probe_command interface u) ∷ t)
              | inl r ↦
                  elim (probe_each out interface us (ran (probe_command interface u) ∷ t)).0
                    as (λ x. Option (List Attempt) × Trace) [
                      | none ↦ (
                        none,
                        (probe_each out interface us (ran (probe_command interface u) ∷ t)).1,
                      )
                      | some more ↦ (
                        some (
                            attempt_of u r
                              (out.mono (ran (probe_command interface u) ∷ t) - out.mono t)
                            ∷ more),
                        (probe_each out interface us (ran (probe_command interface u) ∷ t)).1,
                      )
                    ]
            ]).1
    go (inr e) f g = f
    go (inl r) f g =
        elim (probe_each out interface us (ran (probe_command interface u) ∷ t)).0
          as (λ x.
            GoesOn pid t
              (elim x as (λ y. Option (List Attempt) × Trace) [
                | none ↦
                    (none, (probe_each out interface us (ran (probe_command interface u) ∷ t)).1)
                | some more ↦ (
                  some (
                      attempt_of u r (out.mono (ran (probe_command interface u) ∷ t) - out.mono t)
                      ∷ more),
                  (probe_each out interface us (ran (probe_command interface u) ∷ t)).1,
                )
              ]).1) [ none ↦ g | some more ↦ g ]

pub probes-GoesOn :
    (out : Outside) (pid : ℕ) (interface : String) (urls : List String) (t : Trace)
    → GoesOn pid t (probe_targets out interface urls t).1
unfolding probe_targets targets
probes-GoesOn out pid interface urls t =
    let on = probe_each-GoesOn out pid interface (targets urls) t in
    elim (Option-cases (probe_each out interface (targets urls) t).0) [
      | inl e ↦ rw e on
      | inr (tried, e) ↦ rw e on
    ]

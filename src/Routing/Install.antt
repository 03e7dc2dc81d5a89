-- ===== src/Routing/Install.antt =====
-- RouteManager.install of vps/routing.py: all four rules, or none left behind.
use kui_local_multi_exit.Prelude.{◌≡◌, refl, String, Bool, true, List, ◌∷◌, arith}
use kui_local_multi_exit.Prelude.Exec.{
  Outcome, returned, raised, Failure, succeeded, raise, attempt, proceed, ◌>>◌,
}
use kui_local_multi_exit.Models.{ExitSlotSnapshot}
use kui_local_multi_exit.Outside.{Outside, Trace, ran}
use kui_local_multi_exit.Routing.{
  execute, cleanup, add_rules, install, lookup_rule, unreachable_rule, flush_table, endpoint_route,
  default_route,
}

-- The effects of a cleanup that runs to its end, newest first.
abbrev pub cleaned : ExitSlotSnapshot → Trace → Trace
cleaned slot t =
    ran (flush_table slot) ∷ ran (unreachable_rule "del" slot) ∷ ran (lookup_rule "del" slot) ∷ t

-- The effects of the four additions, in their order: the fail-closed rule comes last.
abbrev pub added : ExitSlotSnapshot → String → String → String → Trace → Trace
added slot endpoint gateway external t =
    ran (unreachable_rule "add" slot)
    ∷ ran (lookup_rule "add" slot)
    ∷ ran (default_route slot)
    ∷ ran (endpoint_route slot endpoint gateway external)
    ∷ t

module _ (out : Outside) (slot : ExitSlotSnapshot) where
  execute_trace :
      (allow : Bool) (c : List String) (t : Trace) → (execute out allow c t).1 ≡ ran c ∷ t
  unfolding execute
  execute_trace allow c t = ground arith

  -- A cleanup that returns has made all three deletions.
  pub cleanup_trace :
      (t : Trace)
      → succeeded (cleanup out slot t).0 ≡ true
      → (cleanup out slot t).1 ≡ cleaned slot t
  unfolding cleanup execute
  cleanup_trace t h = ground arith

  add_rules_trace :
      (endpoint gateway external : String) (t : Trace)
      → succeeded (add_rules out slot endpoint gateway external t).0 ≡ true
      → (add_rules out slot endpoint gateway external t).1 ≡ added slot endpoint gateway external t
  unfolding add_rules execute
  add_rules_trace endpoint gateway external t h = ground arith

-- What `install` may leave: all the rules on a cleaned table, or, where it raised, the state behind
-- a cleanup of the slot that was begun from some trace.
pub data Installed (out : Outside) (slot : ExitSlotSnapshot) (endpoint gateway external : String)
    (t : Trace) : Outcome (Unit {0}) × Trace → Type 0 where
  complete :
      Installed out slot endpoint gateway external t
        (returned tt, added slot endpoint gateway external (cleaned slot t))
  undone :
      (e : Failure) (u : Trace)
      → Installed out slot endpoint gateway external t (raised e, (cleanup out slot u).1)

module _ (out : Outside) (slot : ExitSlotSnapshot) (endpoint gateway external : String) where
  -- A cleanup followed by the exception that called for it raises, whatever the cleanup does.
  undo :
      (e : Failure) (t u : Trace)
      → Installed out slot endpoint gateway external t ((cleanup out slot >> raise e) u)
  undo e t u = go ((cleanup out slot u).0)
    where
      go :
          (o : Outcome (Unit {0}))
          → Installed out slot endpoint gateway external t
              (proceed o (λ _. raise {A = Unit {0}} e) (cleanup out slot u).1)
      go (returned a) = undone e u
      go (raised f) = undone f u

  after_cleanup :
      (t u : Trace)
      → u ≡ cleaned slot t
      → Installed out slot endpoint gateway external t (
          attempt
            (add_rules out slot endpoint gateway external)
            (λ e. cleanup out slot >> raise e)
            u)
  after_cleanup t u e =
      go (add_rules out slot endpoint gateway external u).0
        (add_rules_trace out slot endpoint gateway external u)
    where
      go :
          (o : Outcome (Unit {0}))
          → (succeeded o ≡ true
              → (add_rules out slot endpoint gateway external u).1
                ≡ added slot endpoint gateway external u)
          → Installed out slot endpoint gateway external t (elim o [
            | returned a ↦ (returned a, (add_rules out slot endpoint gateway external u).1)
            | raised f ↦
                (cleanup out slot >> raise f) (add_rules out slot endpoint gateway external u).1
          ])
      go (returned tt) h = rw (h refl, e) complete
      go (raised f) h = undo f t (add_rules out slot endpoint gateway external u).1

  -- A successful `install` has cleaned the slot's rules and added the endpoint route, the default
  -- route, the lookup rule and the fail-closed rule, in this order and nothing else; one that raises
  -- has last tried to clean the slot's rules.
  pub install_all_or_cleanup :
      (t : Trace)
      → Installed out slot endpoint gateway external t
          (install out slot endpoint gateway external t)
  unfolding install
  install_all_or_cleanup t = go (cleanup out slot t).0 (cleanup_trace out slot t)
    where
      go :
          (o : Outcome (Unit {0}))
          → (succeeded o ≡ true → (cleanup out slot t).1 ≡ cleaned slot t)
          → Installed out slot endpoint gateway external t (
              proceed o
                (λ _.
                  attempt
                    (add_rules out slot endpoint gateway external)
                    (λ e. cleanup out slot >> raise e))
                (cleanup out slot t).1)
      go (returned a) h = after_cleanup t (cleanup out slot t).1 (h refl)
      go (raised e) h = undone e t

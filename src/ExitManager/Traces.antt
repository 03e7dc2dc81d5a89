-- ===== src/ExitManager/Traces.antt =====
-- How the steps of vps/exit_manager.py lengthen the trace of what happened outside.
use kui_local_multi_exit.Prelude.{
  ℕ, ◌≡◌, sym, subst, String, Bool, true, false, not, Option, none, some, List, ◌∷◌, arith,
}
use kui_local_multi_exit.Prelude.Exec.{Exec, Outcome, returned, raised, proceed, ◌>>=◌, ◌>>◌}
use kui_local_multi_exit.Models.{ExitSlotSnapshot}
use kui_local_multi_exit.Outside.{Outside, Effect, Trace, process_terminated, process_killed, ran}
use kui_local_multi_exit.Routing.{execute, cleanup, lookup_rule, unreachable_rule, flush_table}
use kui_local_multi_exit.ExitManager.{
  Manager, SlotRuntime, runtime, change_runtime, put_runtime, require_managed_slot, emit, when,
  for_some, on_trace, terminate_process, forget_process,
}

-- The second trace has the first one as its older part.
pub data Extends (t : Trace) : Trace → Type 0 where
  same : Extends t t
  longer : (e : Effect) (u : Trace) → Extends t u → Extends t (e ∷ u)

pub extends_trans : (t u v : Trace) → Extends t u → Extends u v → Extends t v
extends_trans t u _ h same = h
extends_trans t u _ h (longer e v k) = longer e v (extends_trans t u v h k)

-- What was there when a step began stays, and may get newer effects.
abbrev pub Grows : {A : Type 0} → Exec Manager A → Type 0
Grows act = (m : Manager) → Extends m.trace (act m).1.trace

abbrev pub Quiet : {A : Type 0} → Exec Manager A → Type 0
Quiet act = (m : Manager) → (act m).1.trace ≡ m.trace

pub Quiet-Grows : {A : Type 0} (act : Exec Manager A) → Quiet act → Grows act
Quiet-Grows act q m = subst (Extends m.trace) (sym (q m)) same

pub bind-Grows :
    {A B : Type 0} (act : Exec Manager A) (k : A → Exec Manager B)
    → Grows act
    → ((a : A) → Grows (k a))
    → Grows (act >>= k)
bind-Grows {A} {B} act k g h m = go (act m).0
  where
    go : (o : Outcome A) → Extends m.trace (proceed {B = B} o k (act m).1).1.trace
    go (returned a) =
        extends_trans m.trace (act m).1.trace (k a (act m).1).1.trace (g m) (h a (act m).1)
    go (raised e) = g m

pub emit-Grows : (e : Effect) → Grows (emit e)
emit-Grows e m = longer e m.trace same

pub when-Grows : (b : Bool) (act : Exec Manager Unit) → Grows act → Grows (when b act)
when-Grows true act g m = g m
when-Grows false act g m = same

pub for_some-Grows :
    {A : Type 0} (o : Option A) (act : A → Exec Manager Unit)
    → ((a : A) → Grows (act a))
    → Grows (for_some o act)
for_some-Grows none act g m = same
for_some-Grows (some a) act g m = g a m

pub change_runtime-Quiet :
    (id : String) (f : SlotRuntime → SlotRuntime) → Quiet (change_runtime id f)
unfolding change_runtime put_runtime
change_runtime-Quiet id f m = ground arith

pub runtime-Quiet : (id : String) → Quiet (runtime id)
unfolding runtime
runtime-Quiet id m = ground arith

pub require-Quiet : (id : String) → Quiet (require_managed_slot id)
unfolding require_managed_slot
require-Quiet id m = ground arith

pub terminate_process-Grows :
    (out : Outside) (id : String) (pid : ℕ) → Grows (terminate_process out id pid)
unfolding terminate_process
terminate_process-Grows out id pid m =
    extends_trans m.trace (process_terminated pid ∷ m.trace)
      ((when (not (out.terminates m.trace pid)) (emit (process_killed pid))
          >> change_runtime id (forget_process pid))
        (record m { trace = process_terminated pid ∷ m.trace })).1.trace
      (longer (process_terminated pid) m.trace same)
      (bind-Grows (when (not (out.terminates m.trace pid)) (emit (process_killed pid)))
        (λ _. change_runtime id (forget_process pid))
        (when-Grows (not (out.terminates m.trace pid)) (emit (process_killed pid))
          (emit-Grows (process_killed pid)))
        (λ _.
          Quiet-Grows (change_runtime id (forget_process pid))
            (change_runtime-Quiet id (forget_process pid)))
        (record m { trace = process_terminated pid ∷ m.trace }))

execute_extends :
    (out : Outside) (b : Bool) (c : List String) (t : Trace) → Extends t (execute out b c t).1
unfolding execute
execute_extends out b c t = subst (Extends t) (sym here) (longer (ran c) t same)
  where
    here : (execute out b c t).1 ≡ ran c ∷ t
    here = ground arith

then_extends :
    (act next : Exec Trace Unit) (t : Trace)
    → Extends t (act t).1
    → ((u : Trace) → Extends u (next u).1)
    → Extends t ((act >> next) t).1
then_extends act next t g h = go (act t).0
  where
    go : (o : Outcome Unit) → Extends t (proceed o (λ _. next) (act t).1).1
    go (returned a) = extends_trans t (act t).1 (next (act t).1).1 g (h (act t).1)
    go (raised e) = g

pub cleanup-Grows : (out : Outside) (slot : ExitSlotSnapshot) → Grows (on_trace (cleanup out slot))
unfolding cleanup
cleanup-Grows out slot m =
    then_extends (execute out true (lookup_rule "del" slot))
      (execute out true (unreachable_rule "del" slot) >> execute out true (flush_table slot))
      m.trace (execute_extends out true (lookup_rule "del" slot) m.trace)
      (λ u.
        then_extends (execute out true (unreachable_rule "del" slot))
          (execute out true (flush_table slot)) u
          (execute_extends out true (unreachable_rule "del" slot) u)
          (execute_extends out true (flush_table slot)))

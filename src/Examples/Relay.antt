-- ===== src/Examples/Relay.antt =====
-- Examples at the relay process.
use kui_local_multi_exit.Prelude.{
  ℕ, String, Bool, true, false, not, ◌&&◌, ◌+◌, ◌<◌, ◌≡◌, refl, subst, sym, none, some, List, [],
  ◌∷◌, ◌⊎◌, inl, inr, eqb, arith,
}
use kui_local_multi_exit.Json.{Fields, end, field, str}
use kui_local_multi_exit.RealmManager.{
  Act, spawned, terminated, killed, time_passed, System, Realm, status,
}
use kui_local_multi_exit.RealmManager.Processes.{
  Spawned, IsSystem, Move, configures, starts, stops, waits, move, moves, new_manager,
  relay_stays_known,
}

-- A process runs until it is told to end, and their numbers grow.
abbrev still_runs : List Act → ℕ → Bool
still_runs [] p = true
still_runs (spawned cmd q ∷ acts) p = still_runs acts p
still_runs (terminated q ∷ acts) p = not (eqb p q) && still_runs acts p
still_runs (killed q ∷ acts) p = not (eqb p q) && still_runs acts p
still_runs (time_passed ∷ acts) p = still_runs acts p

abbrev next_number : List Act → ℕ
next_number [] = 1
next_number (spawned cmd q ∷ acts) = q + next_number acts + 1
next_number (terminated q ∷ acts) = next_number acts
next_number (killed q ∷ acts) = next_number acts
next_number (time_passed ∷ acts) = next_number acts

abbrev plain_system : System
plain_system = record {
  runs = still_runs;
  ends = λ acts p. true;
  spawn = λ acts cmd. inl (next_number acts);
}

number_new : (acts : List Act) (p : ℕ) → Spawned p acts → p < next_number acts
number_new [] p s = elim s [ ]
number_new (spawned cmd q ∷ acts) p (inl e) =
    subst (λ x. x < q + next_number acts + 1) (sym e) (omega arith)
number_new (spawned cmd q ∷ acts) p (inr s) = let h = number_new acts p s in omega arith
number_new (terminated q ∷ acts) p s = number_new acts p s
number_new (killed q ∷ acts) p s = number_new acts p s
number_new (time_passed ∷ acts) p s = number_new acts p s

falsum : (b : Bool) → (b && false) ≡ false
falsum true = refl
falsum false = refl

stays_ended :
    (acts : List Act) (a : Act) (p : ℕ)
    → still_runs acts p ≡ false
    → still_runs (a ∷ acts) p ≡ false
stays_ended acts (spawned cmd q) p e = e
stays_ended acts (terminated q) p e = rw e (falsum (not (eqb p q)))
stays_ended acts (killed q) p e = rw e (falsum (not (eqb p q)))
stays_ended acts time_passed p e = e

asked_ends : (acts : List Act) (p : ℕ) → (not (eqb p p) && still_runs acts p) ≡ false
asked_ends acts p = ground arith

abbrev the_number : ℕ → ℕ ⊎ String
the_number n = inl n

new_number :
    (acts : List Act) (p : ℕ) → (the_number (next_number acts)) ≡ inl p → Spawned p acts → ⊥
new_number acts p e s =
    let h = number_new acts p s in let k : next_number acts ≡ p = cc in omega arith

plain_system-IsSystem : IsSystem plain_system
plain_system-IsSystem = record {
  is_new = λ acts cmd p e s. new_number acts p e s;
  stays_ended = λ acts a p s e. stays_ended acts a p e;
  ends_asked = λ acts p e. asked_ends acts p;
  ends_killed = asked_ends;
}

abbrev relay_payload : Fields
relay_payload = field "listen" (str "127.0.0.1:9000") (field "remote" (str "relay.example:443") end)

abbrev relay_moves : List Move
relay_moves = configures relay_payload ∷ starts ∷ waits ∷ starts ∷ []

relay_stays_known_example :
    let r = moves plain_system relay_moves (new_manager "/usr/bin/realm" none) in
    (Spawned 1 r.acts
      → plain_system.runs r.acts 1 ≡ true
      → (r.process ≡ some 1) × ((status plain_system r).running ≡ true))
    × (Spawned 1 (move plain_system stops r).acts
        → plain_system.runs (move plain_system stops r).acts 1 ≡ false)
relay_stays_known_example =
    relay_stays_known plain_system plain_system-IsSystem "/usr/bin/realm" none relay_moves 1

one_process :
    (moves plain_system relay_moves (new_manager "/usr/bin/realm" none)).acts
    ≡ time_passed
      ∷ spawned ("/usr/bin/realm" ∷ "-l" ∷ "127.0.0.1:9000" ∷ "-r" ∷ "relay.example:443" ∷ []) 1
      ∷ []
unfolding kui_local_multi_exit.RealmManager.configure kui_local_multi_exit.RealmManager.start
    kui_local_multi_exit.RealmManager.launch kui_local_multi_exit.RealmManager.endpoint
    kui_local_multi_exit.RealmManager.config kui_local_multi_exit.RealmManager.match_endpoint
    kui_local_multi_exit.RealmManager.span kui_local_multi_exit.Prelude.Text.digits_from
    kui_local_multi_exit.Prelude.Text.digits kui_local_multi_exit.Prelude.Text.after_prefix
    kui_local_multi_exit.Prelude.Text.lstrip kui_local_multi_exit.Prelude.Text.rstrip
    kui_local_multi_exit.Prelude.Text.strip kui_local_multi_exit.Json.lookup
    kui_local_multi_exit.Json.truthy kui_local_multi_exit.Json.lookup_true
one_process = refl

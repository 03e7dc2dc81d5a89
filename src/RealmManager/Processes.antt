-- ===== src/RealmManager/Processes.antt =====
-- vps/realm_manager.py: the manager never has two relay processes that run.
use kui_local_multi_exit.Prelude.{
  ℕ, String, true, false, ◌||◌, Option, none, some, List, [], ◌∷◌, ◌≡◌, refl, sym, subst, ◌⊎◌, inl,
  inr, Bool-cases, Option-cases,
}
use kui_local_multi_exit.Prelude.Text.{is_empty}
use kui_local_multi_exit.Prelude.Exec.{
  Outcome, returned, raised, Meets, Meets-bind, Meets-if, Meets-object,
}
use kui_local_multi_exit.Json.{Fields, Json, lookup}
use kui_local_multi_exit.RealmManager.{
  Act, spawned, terminated, killed, time_passed, System, Realm, is_running, configure, launch,
  start, stop, restart, status, adopt, spawn_or_fail, end_running, config, command, endpoint,
  or_raise,
}

-- The process has been spawned.
abbrev pub Spawned : ℕ → List Act → Type 0
Spawned p [] = ⊥
Spawned p (spawned cmd q ∷ acts) = (p ≡ q) ⊎ Spawned p acts
Spawned p (terminated q ∷ acts) = Spawned p acts
Spawned p (killed q ∷ acts) = Spawned p acts
Spawned p (time_passed ∷ acts) = Spawned p acts

-- What the system promises: a new process is a new one, a process that has ended does not come back,
-- one that ends when it is asked to has ended then, and one that is killed too.
pub record IsSystem (sys : System) : Type 0 where
  pub is_new :
      (acts : List Act) (cmd : List String) (p : ℕ)
      → sys.spawn acts cmd ≡ inl p
      → Spawned p acts
      → ⊥
  pub stays_ended :
      (acts : List Act) (a : Act) (p : ℕ)
      → Spawned p acts
      → sys.runs acts p ≡ false
      → sys.runs (a ∷ acts) p ≡ false
  pub ends_asked :
      (acts : List Act) (p : ℕ) → sys.ends acts p ≡ true → sys.runs (terminated p ∷ acts) p ≡ false
  pub ends_killed : (acts : List Act) (p : ℕ) → sys.runs (killed p ∷ acts) p ≡ false

module _ (sys : System) (h : IsSystem sys) where
  -- No process runs but, perhaps, the given one.
  abbrev IsOnly : Option ℕ → List Act → Type 0
  IsOnly process acts = (p : ℕ) → Spawned p acts → (process ≡ some p) ⊎ (sys.runs acts p ≡ false)

  abbrev IsAlone : Realm → Type 0
  IsAlone r = IsOnly r.process r.acts

  -- Another act changes nothing of that.
  one_act :
      (process : Option ℕ) (acts : List Act) (a : Act)
      → ((p : ℕ) → Spawned p (a ∷ acts) → Spawned p acts)
      → IsOnly process acts
      → IsOnly process (a ∷ acts)
  one_act process acts a old only p s = elim (only p (old p s)) [
    | inl e ↦ inl e
    | inr e ↦ inr (h.stays_ended acts a p (old p s) e)
  ]

  ended-IsOnly :
      (acts : List Act) (p : ℕ) → sys.runs acts p ≡ false → IsOnly (some p) acts → IsOnly none acts
  ended-IsOnly acts p e only q s = elim (only q s) [
    | inr f ↦ inr f
    | inl f ↦ let same : p ≡ q = cc in inr (subst (λ x. sys.runs acts x ≡ false) same e)
  ]

  spawn-IsOnly :
      (acts : List Act) (cmd : List String) (p : ℕ)
      → IsOnly none acts
      → IsOnly (some p) (spawned cmd p ∷ acts)
  spawn-IsOnly acts cmd p only q (inl e) = inl (cc)
  spawn-IsOnly acts cmd p only q (inr s) = elim (only q s) [
    | inl f ↦ absurd (cc)
    | inr f ↦ inr (h.stays_ended acts (spawned cmd p) q s f)
  ]

  idle-IsOnly : (r : Realm) → is_running sys r ≡ false → IsAlone r → IsOnly none r.acts
  idle-IsOnly r e only = elim (Option-cases r.process) [
    | inl n ↦ subst (λ x. IsOnly x r.acts) n only
    | inr (p, n) ↦ ended-IsOnly r.acts p (rw n at e) (subst (λ x. IsOnly x r.acts) n only)
  ]

  adopt-IsAlone :
      (cmd : List String) (p : ℕ) (r : Realm)
      → IsOnly none r.acts
      → Meets (λ u s. IsAlone s) IsAlone (adopt sys cmd p r)
  adopt-IsAlone cmd p r only =
      let acts = spawned cmd p ∷ r.acts in
      let mine = spawn-IsOnly r.acts cmd p only in
      elim (Bool-cases (sys.runs acts p)) [
        | inl e ↦ rw e mine
        | inr e ↦ rw e (ended-IsOnly acts p e mine)
      ]

  spawn-IsAlone :
      (cmd : List String) (answer : ℕ ⊎ String) (r : Realm)
      → IsOnly none r.acts
      → Meets (λ u s. IsAlone s) IsAlone (spawn_or_fail sys cmd answer r)
  spawn-IsAlone cmd (inl p) r only = adopt-IsAlone cmd p r only
  spawn-IsAlone cmd (inr text) r only = only

  launch-IsAlone : (r : Realm) → IsAlone r → Meets (λ u s. IsAlone s) IsAlone (launch sys r r)
  unfolding launch
  launch-IsAlone r only =
      Meets-if (is_running sys r) _ _ r _ _ (λ e. only)
        (λ e.
          Meets-if (is_empty (config r).listen || is_empty (config r).remote) _ _ r _ _ (λ f. only)
            (λ f.
              Meets-if (is_empty r.binary) _ _ r _ _ (λ g. only)
                (λ g.
                  spawn-IsAlone (command r) (sys.spawn r.acts (command r)) r
                    (idle-IsOnly r e only))))

  start-IsAlone : (r : Realm) → IsAlone r → Meets (λ u s. IsAlone s) IsAlone (start sys r)
  unfolding start
  start-IsAlone r only = Meets-bind (launch sys r) r _ _ _ _ (launch-IsAlone r only) (λ u s q. q)

  asked-IsOnly :
      (acts : List Act) (p : ℕ) → IsOnly (some p) acts → IsOnly (some p) (terminated p ∷ acts)
  asked-IsOnly acts p only = one_act (some p) acts (terminated p) (λ q s. s) only

  end-IsAlone :
      (process : Option ℕ) (r : Realm)
      → IsOnly process r.acts
      → r.process ≡ none
      → Meets (λ u s. IsAlone s) IsAlone (end_running sys process r)
  end-IsAlone none r only n = subst (λ x. IsOnly x r.acts) (sym n) only
  end-IsAlone (some p) r only n =
      let asked = asked-IsOnly r.acts p only in
      let killed_too = one_act (some p) (terminated p ∷ r.acts) (killed p) (λ q s. s) asked in
      elim (Bool-cases (sys.runs r.acts p)) [
        | inr e ↦ rw (e, n) (ended-IsOnly r.acts p e only)
        | inl e ↦ elim (Bool-cases (sys.ends r.acts p)) [
          | inl f ↦
              rw (e, f, n) (ended-IsOnly (terminated p ∷ r.acts) p (h.ends_asked r.acts p f) asked)
          | inr f ↦
              rw (e, f, n)
                (ended-IsOnly (killed p ∷ terminated p ∷ r.acts) p
                  (h.ends_killed (terminated p ∷ r.acts) p) killed_too)
        ]
      ]

  stop-IsAlone : (r : Realm) → IsAlone r → Meets (λ u s. IsAlone s) IsAlone (stop sys r)
  unfolding stop
  stop-IsAlone r only =
      let q = record r { process = none } in
      Meets-bind (end_running sys r.process) q _ _ _ _ (end-IsAlone r.process q only refl)
        (λ u s k. k)

  or_raise-IsAlone :
      (o : Outcome String) (r : Realm) → IsAlone r → Meets (λ u s. IsAlone s) IsAlone (or_raise o r)
  or_raise-IsAlone (returned t) r only = only
  or_raise-IsAlone (raised e) r only = only

  configure-IsAlone :
      (payload : Fields) (r : Realm)
      → IsAlone r
      → Meets (λ u s. IsAlone s) IsAlone (configure payload r)
  unfolding configure
  configure-IsAlone payload r only =
      Meets-bind (or_raise (endpoint true (lookup "listen" payload))) r _ _ _ _
        (or_raise-IsAlone (endpoint true (lookup "listen" payload)) r only)
        (λ l s k.
          Meets-bind (or_raise (endpoint false (lookup "remote" payload))) s _ _ _ _
            (or_raise-IsAlone (endpoint false (lookup "remote" payload)) s k) (λ t u m. m))

  restart-IsAlone : (r : Realm) → IsAlone r → Meets (λ u s. IsAlone s) IsAlone (restart sys r)
  unfolding restart
  restart-IsAlone r only =
      Meets-bind (stop sys) r _ _ _ _ (stop-IsAlone r only) (λ u s k. start-IsAlone s k)

-- What may happen to the manager: its operations, and time.
pub data Move : Type 0 where
  configures : Fields → Move
  starts stops restarts waits : Move

abbrev pub move : System → Move → Realm → Realm
move sys (configures payload) r = (configure payload r).1
move sys starts r = (start sys r).1
move sys stops r = (stop sys r).1
move sys restarts r = (restart sys r).1
move sys waits r = record r { acts = time_passed ∷ r.acts }

abbrev pub moves : System → List Move → Realm → Realm
moves sys [] r = r
moves sys (a ∷ as') r = moves sys as' (move sys a r)

-- The manager of a host that has done nothing yet.
abbrev pub new_manager : String → Option Json → Realm
new_manager binary setting = record {
  binary = binary;
  setting = setting;
  process = none;
  state = "stopped";
  error = "";
  acts = [];
}

module _ (sys : System) (h : IsSystem sys) where
  move-IsAlone : (a : Move) (r : Realm) → IsAlone sys h r → IsAlone sys h (move sys a r)
  move-IsAlone (configures payload) r only =
      Meets-object (IsAlone sys h) (configure payload r) (configure-IsAlone sys h payload r only)
  move-IsAlone starts r only =
      Meets-object (IsAlone sys h) (start sys r) (start-IsAlone sys h r only)
  move-IsAlone stops r only = Meets-object (IsAlone sys h) (stop sys r) (stop-IsAlone sys h r only)
  move-IsAlone restarts r only =
      Meets-object (IsAlone sys h) (restart sys r) (restart-IsAlone sys h r only)
  move-IsAlone waits r only = one_act sys h r.process r.acts time_passed (λ q s. s) only

  moves-IsAlone : (as' : List Move) (r : Realm) → IsAlone sys h r → IsAlone sys h (moves sys as' r)
  moves-IsAlone [] r only = only
  moves-IsAlone (a ∷ as') r only = moves-IsAlone as' (move sys a r) (move-IsAlone a r only)

  end_keeps :
      (process : Option ℕ) (r : Realm)
      → Meets
          (λ u s. s.process ≡ r.process)
          (λ s. s.process ≡ r.process)
          (end_running sys process r)
  end_keeps none r = refl
  end_keeps (some p) r = elim (Bool-cases (sys.runs r.acts p)) [
    | inr e ↦ rw e refl
    | inl e ↦ elim (Bool-cases (sys.ends r.acts p)) [
      | inl f ↦ rw (e, f) refl
      | inr f ↦ rw (e, f) refl
    ]
  ]

  stop_forgets : (r : Realm) → Meets (λ u s. s.process ≡ none) (λ s. s.process ≡ none) (stop sys r)
  unfolding stop
  stop_forgets r =
      let q = record r { process = none } in
      Meets-bind (end_running sys r.process) q _ _ _ _ (end_keeps r.process q) (λ u s k. k)

  known_runs :
      (r : Realm) (p : ℕ)
      → r.process ≡ some p
      → sys.runs r.acts p ≡ true
      → (status sys r).running ≡ true
  unfolding status
  known_runs r p e runs = rw e runs

  -- Whatever is asked of a new manager, in whatever order and with whatever pauses, and whatever
  -- fails: a relay process that it has spawned and that runs is the one that it knows, so that no two
  -- of them run, and its status then says that a process runs. Once it is stopped, none runs.
  pub relay_stays_known :
      (binary : String) (setting : Option Json) (as' : List Move) (p : ℕ)
      → let r = moves sys as' (new_manager binary setting) in
        (Spawned p r.acts
          → sys.runs r.acts p ≡ true
          → (r.process ≡ some p) × ((status sys r).running ≡ true))
        × (Spawned p (move sys stops r).acts → sys.runs (move sys stops r).acts p ≡ false)
  relay_stays_known binary setting as' p =
      let r = moves sys as' (new_manager binary setting) in
      let only = moves-IsAlone as' (new_manager binary setting) (λ q s. absurd s) in
      let gone = Meets-object (λ s. s.process ≡ none) (stop sys r) (stop_forgets r) in
      (
        λ s runs. elim (only p s) [ inl e ↦ (e, known_runs r p e runs) | inr e ↦ absurd (cc) ],
        λ s. elim (move-IsAlone stops r only p s) [ inl e ↦ absurd (cc) | inr e ↦ e ],
      )

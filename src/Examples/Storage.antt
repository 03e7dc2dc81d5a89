-- ===== src/Examples/Storage.antt =====
-- Examples at the tables of the exit slots.
use kui_local_multi_exit.Prelude.{
  ℕ, ◌≡◌, ◌≢◌, refl, ap, true≢false, Bool, true, false, Option, none, some, List, [], ◌∷◌, arith,
  eqb, eq_iff, if◌then◌else◌,
}
use kui_local_multi_exit.Prelude.Exec.{returned}
use kui_local_multi_exit.Prelude.Text.{is_country_code}
use kui_local_multi_exit.Models.{ExitSlotSnapshot, state_named}
use kui_local_multi_exit.Store.{find_row, update_rows, get_slot, record_event}
use kui_local_multi_exit.Store.Slots.{is_slot_country, record_failure, failed_row}
use kui_local_multi_exit.Store.Runtime.{
  Assign, state, entry_ip, set_runtime_if_generation, check_assignments, set_runtime, assigned_row,
  assign_value,
}
use kui_local_multi_exit.Store.Generation.{
  Write, after, update, failure, runtime, generation_at, grown, bumps, generation-after,
}
use kui_local_multi_exit.Store.Fencing.{run, bump_count, land, guarded_write_fenced}
use kui_local_multi_exit.Store.Ports.{IsSound, after-IsSound}
use kui_local_multi_exit.Store.Streak.{fail_times, Failed, failure_limit_disables}
use kui_local_multi_exit.Store.Template.{initialize}
use kui_local_multi_exit.Store.Fresh.{reachable-IsSound}
use kui_local_multi_exit.Store
use kui_local_multi_exit.Examples.{slot_two, two_slots}

-- The slot is written to, and then it fails.
abbrev history : List (Write × ℕ)
history = (runtime "01" (entry_ip "203.0.113.9" ∷ []), 20) ∷ (failure "01" "lost" 5, 30) ∷ []

abbrev verdict : List Assign
verdict = state "ready" ∷ []

abbrev is_there : Option ExitSlotSnapshot → Bool
is_there none = false
is_there (some r) = true

row_there : find_row "01" (run history two_slots).slots ≢ none
unfolding run after set_runtime check_assignments assigned_row assign_value get_slot record_failure
    failed_row update_rows find_row record_event
row_there e = true≢false (ap is_there e)

verdict_accepted :
    check_assignments verdict (run history two_slots) ≡ (returned tt, run history two_slots)
unfolding check_assignments state_named
verdict_accepted = refl

guarded_write_fenced_example :
    set_runtime_if_generation "01" (generation_at "01" two_slots) verdict 40 (run history two_slots)
    ≡ (if eqb (bump_count "01" history two_slots) 0
        then land "01" verdict 40 (run history two_slots)
        else (returned none, run history two_slots))
guarded_write_fenced_example =
    guarded_write_fenced "01" history two_slots verdict 40 row_there verdict_accepted

japan_accepted : is_slot_country "JP" ≡ true
unfolding is_slot_country is_country_code
japan_accepted = refl

any_accepted : is_slot_country "ANY" ≡ true
unfolding is_slot_country
any_accepted = refl

two_slots-IsSound : IsSound two_slots.slots
unfolding find_row
two_slots-IsSound = record {
  distinct =
      λ i j r q a b e. ground (arith, eq_iff "01" i, eq_iff "02" i, eq_iff "01" j, eq_iff "02" j);
  in_range = λ i r a. ground (arith, eq_iff "01" i, eq_iff "02" i);
  country = λ i r a. ground (
    arith,
    eq_iff "01" i,
    eq_iff "02" i,
    japan_accepted,
    any_accepted,
    λ (q : ExitSlotSnapshot) (h : q ≡ r).
        ap (λ (x : ExitSlotSnapshot). is_slot_country x.country) h,
  );
}

after-IsSound_example :
    IsSound (after (update "02" (some "us") (some 7930) none) 50 two_slots).slots
after-IsSound_example =
    after-IsSound (update "02" (some "us") (some 7930) none) 50 two_slots two_slots-IsSound

generation-after_example :
    generation_at "01" (after (failure "01" "lost" 5) 30 two_slots)
    ≡ grown (bumps "01" (failure "01" "lost" 5) 30 two_slots) (generation_at "01" two_slots)
generation-after_example = generation-after "01" 30 two_slots (failure "01" "lost" 5)

failure_limit_disables_example :
    (q : ExitSlotSnapshot) × (find_row "02" (fail_times "02" "lost" 5 30 3 two_slots).slots
      ≡ some q)
    × Failed slot_two 5 3 q
unfolding find_row
failure_limit_disables_example =
    failure_limit_disables "02" "lost" 5 30 2 two_slots slot_two (omega arith) refl

reachable-IsSound_example :
    IsSound (run history (initialize 34 60 (run history (initialize 24 10 Store.empty).1)).1).slots
reachable-IsSound_example = reachable-IsSound 24 10 60 34 history history

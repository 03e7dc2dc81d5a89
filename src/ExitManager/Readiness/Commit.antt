-- ===== src/ExitManager/Readiness/Commit.antt =====
-- ExitManager.commit_ready of vps/exit_manager.py: what a successful attempt leaves, and that a late
-- one leaves nothing.
use kui_local_multi_exit.Prelude.{
  ℕ, ◌≡◌, refl, ap, subst, String, eq_refl, Bool, true, false, Option, some, ◌∷◌, arith, eqb,
}
use kui_local_multi_exit.Prelude.Dict
use kui_local_multi_exit.Prelude.Exec.{Outcome, returned}
use kui_local_multi_exit.Json.{Fields, lookup_obj}
use kui_local_multi_exit.Models.{ExitSlotSnapshot, state_named, is_serving}
use kui_local_multi_exit.Outside.{Outside, Listener, listener_started, seconds}
use kui_local_multi_exit.Store
use kui_local_multi_exit.Store.{Store, find_row}
use kui_local_multi_exit.Store.Rows.{find-update, id-assigned}
use kui_local_multi_exit.Store.Runtime.{
  check_assignments, assigned_row, assign_value, set_runtime_if_generation,
}
use kui_local_multi_exit.Store.History.{append_check_result}
use kui_local_multi_exit.ExitManager.{
  Manager, SlotRuntime, runtime, change_runtime, put_runtime, stop_listener, start_listener,
}
use kui_local_multi_exit.ExitManager.Readiness.{
  node_country, is_superseded, is_verified, ready_values, values_of, publish, commit_ready,
}

-- A result for a slot that is disabled, has another generation or another country than the node
-- changes nothing. The slot is there.
pub superseded_commit_ignored :
    (out : Outside) (id : String) (generation : ℕ) (entry egress : String) (node result : Fields)
    (prepared : Option Listener) (m : Manager) (r : ExitSlotSnapshot)
    → find_row id m.store.slots ≡ some r
    → is_superseded r generation (node_country node) ≡ true
    → commit_ready out id generation entry egress node result prepared m ≡ (returned false, m)
unfolding commit_ready Store.get_slot
superseded_commit_ignored out id generation entry egress node result prepared m r e late =
    ground arith

values_valid :
    (verified : Bool) (entry egress : String) (node result : Fields) (s : Store)
    → check_assignments (values_of verified entry egress node result) s ≡ (returned tt, s)
unfolding check_assignments values_of state_named
values_valid true entry egress node result s = refl
values_valid false entry egress node result s = refl

ready_values_valid :
    (entry egress : String) (node result : Fields) (s : Store)
    → check_assignments (ready_values entry egress node result) s ≡ (returned tt, s)
unfolding ready_values
ready_values_valid entry egress node result s =
    values_valid (is_verified (lookup_obj "health" result)) entry egress node result s

write_lands :
    (id : String) (generation now : ℕ) (entry egress : String) (node result : Fields) (s : Store)
    (r : ExitSlotSnapshot)
    → find_row id s.slots ≡ some r
    → eqb r.generation generation ≡ true
    → ((set_runtime_if_generation id generation (ready_values entry egress node result) now s).0
        ≡ returned (some (assigned_row (ready_values entry egress node result) now r)))
      × (find_row id
            (set_runtime_if_generation id generation
              (ready_values entry egress node result)
              now
              s).1.slots
          ≡ some (assigned_row (ready_values entry egress node result) now r))
unfolding set_runtime_if_generation
write_lands id generation now entry egress node result s r e g =
    rw (ready_values_valid entry egress node result s) (
      ground (
        arith,
        eq_refl id,
        find-update id id (assigned_row (ready_values entry egress node result) now)
            (id-assigned (ready_values entry egress node result) now) s.slots,
      ))

-- The row that a committed result leaves.
pub record Committed (generation : ℕ) (entry egress : String) (node : Fields) (q : ExitSlotSnapshot)
    : Type 0 where
  pub generation_kept : q.generation ≡ generation
  pub serving : is_serving q.state ≡ true
  pub entry_written : q.entry_ip ≡ entry
  pub egress_written : q.egress_ip ≡ egress
  pub node_written : q.current_node ≡ node
  pub streak_reset : q.failure_streak ≡ 0

assigned_row-Committed :
    (verified : Bool) (entry egress : String) (node result : Fields) (now : ℕ)
    (r : ExitSlotSnapshot)
    → Committed r.generation entry egress node
        (assigned_row (values_of verified entry egress node result) now r)
unfolding values_of assigned_row assign_value state_named
assigned_row-Committed true entry egress node result now r = record {
  generation_kept = refl;
  serving = refl;
  entry_written = refl;
  egress_written = refl;
  node_written = refl;
  streak_reset = refl;
}
assigned_row-Committed false entry egress node result now r = record {
  generation_kept = refl;
  serving = refl;
  entry_written = refl;
  egress_written = refl;
  node_written = refl;
  streak_reset = refl;
}

module _ (out : Outside) (id : String) (generation : ℕ) (entry egress : String)
    (node result : Fields) (l : Listener) (m : Manager) (q : SlotRuntime) where
  abbrev started_at : ℕ
  started_at = seconds (out.now (listener_started l ∷ m.trace))

  abbrev appended : Store
  appended = (append_check_result id generation result started_at m.store).1

  abbrev written : Outcome (Option ExitSlotSnapshot) × Store
  written =
      set_runtime_if_generation id generation (ready_values entry egress node result) started_at
        appended

  publish_lands :
      (p : ExitSlotSnapshot)
      → written.0 ≡ returned (some p)
      → m.shutdown ≡ false
      → Dict.get id m.runtimes ≡ some q
      → q.stop ≡ false
      → out.listener_starts m.trace l ≡ true
      → ((publish out id generation entry egress node result l m).0 ≡ returned true)
        × ((publish out id generation entry egress node result l m).1.store ≡ written.1)
  unfolding publish start_listener runtime change_runtime put_runtime stop_listener
      append_check_result
  publish_lands p w runs there go starts = ground arith

  commit_publishes :
      (r : ExitSlotSnapshot)
      → find_row id m.store.slots ≡ some r
      → is_superseded r generation (node_country node) ≡ false
      → m.shutdown ≡ false
      → Dict.get id m.runtimes ≡ some q
      → q.stop ≡ false
      → (publish out id generation entry egress node result l m).0 ≡ returned true
      → ((commit_ready out id generation entry egress node result (some l) m).0 ≡ returned true)
        × ((commit_ready out id generation entry egress node result (some l) m).1.store.slots
            ≡ (publish out id generation entry egress node result l m).1.store.slots)
  unfolding commit_ready runtime Store.get_slot Store.record_event
  commit_publishes r e current runs there go done = ground arith

  row-Committed :
      (r : ExitSlotSnapshot)
      → r.generation ≡ generation
      → Committed generation entry egress node
          (assigned_row (ready_values entry egress node result) started_at r)
  unfolding ready_values
  row-Committed r e =
      subst
        (λ g.
          Committed g entry egress node
            (assigned_row (ready_values entry egress node result) started_at r))
        e
        (assigned_row-Committed (is_verified (lookup_obj "health" result)) entry egress node result
          started_at r)

  -- A current result, for a slot that is not halted, with a prepared listener that starts, is
  -- committed: the slot serves under its generation with the addresses and the node of the result
  -- and a streak of 0.
  pub current_commit_lands :
      (r : ExitSlotSnapshot)
      → find_row id m.store.slots ≡ some r
      → is_superseded r generation (node_country node) ≡ false
      → m.shutdown ≡ false
      → Dict.get id m.runtimes ≡ some q
      → q.stop ≡ false
      → out.listener_starts m.trace l ≡ true
      → ((commit_ready out id generation entry egress node result (some l) m).0 ≡ returned true)
        × ((p : ExitSlotSnapshot) × (find_row id
                (commit_ready out id generation entry egress node result (some l) m).1.store.slots
              ≡ some p)
            × Committed generation entry egress node p)
  unfolding append_check_result
  current_commit_lands r e current runs there go starts =
      let row = assigned_row (ready_values entry egress node result) started_at r in
      let lands =
        write_lands id generation started_at entry egress node result appended r e (ground arith) in
      let published = publish_lands row lands.0 runs there go starts in
      let commit = commit_publishes r e current runs there go published.0 in
      (
        commit.0,
        (
          row,
          cc (commit.1, ap (λ (s : Store). find_row id s.slots) published.1, lands.1),
          row-Committed r (ground arith),
        ),
      )

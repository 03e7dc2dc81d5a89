-- ===== src/Store/Fencing.antt =====
-- The `generation` column of vps/store.py as a fence: a worker that read a generation can write its
-- result under that generation only as long as nothing has updated, failed or enabled the slot.
use kui_local_multi_exit.Prelude.{
  ℕ, ◌+◌, ◌≡◌, ◌≢◌, String, Option, none, some, List, [], ◌∷◌, eq_refl, arith, eqb, if◌then◌else◌,
  Option-cases, inl, inr,
}
use kui_local_multi_exit.Prelude.Exec.{Outcome, returned}
use kui_local_multi_exit.Models.{ExitSlotSnapshot}
use kui_local_multi_exit.Store.{Store, find_row, update_rows}
use kui_local_multi_exit.Store.Runtime.{
  Assign, check_assignments, assigned_row, set_runtime_if_generation,
}
use kui_local_multi_exit.Store.Rows.{find-update, mapped, id-assigned}
use kui_local_multi_exit.Store.Generation.{Write, after, bumps, generation_at, generation-after}

-- A history of writes, each with its instant.
unfoldable pub run : List (Write × ℕ) → Store → Store
run [] s = s
run ((w, now) ∷ ws) s = run ws (after w now s)

-- How often a history bumps the slot.
unfoldable pub bump_count : String → List (Write × ℕ) → Store → ℕ
bump_count id [] s = 0
bump_count id ((w, now) ∷ ws) s =
    (if bumps id w now s then 1 else 0) + bump_count id ws (after w now s)

pub generation-run :
    (id : String) (ws : List (Write × ℕ)) (s : Store)
    → generation_at id (run ws s) ≡ generation_at id s + bump_count id ws s
unfolding run bump_count
generation-run id [] s = omega arith
generation-run id ((w, now) ∷ ws) s =
    ground (arith, generation-after id now s w, generation-run id ws (after w now s))

-- A write of the assignments that finds its row.
abbrev pub land : String → List Assign → ℕ → Store → Outcome (Option ExitSlotSnapshot) × Store
land id vs now t = (
  returned (mapped (assigned_row vs now) (find_row id t.slots)),
  record t { slots = update_rows id (assigned_row vs now) t.slots },
)

-- The conditional write at a row of its slot.
write_at_row :
    (id : String) (g k : ℕ) (vs : List Assign) (now : ℕ) (t : Store) (r : ExitSlotSnapshot)
    → find_row id t.slots ≡ some r
    → r.generation ≡ g + k
    → check_assignments vs t ≡ (returned tt, t)
    → set_runtime_if_generation id g vs now t
      ≡ (if eqb k 0 then land id vs now t else (returned none, t))
unfolding set_runtime_if_generation
write_at_row id g k vs now t r e grown valid = rw valid (
    ground
      (arith, find-update id id (assigned_row vs now) (id-assigned vs now) t.slots, eq_refl id))

-- A result written under a generation that was read before the history lands if and only if no
-- update, failure or enabling of the slot succeeded in between; where one did, the store is as it
-- was. The slot is there, and the assignments are ones that `set_runtime` accepts.
pub guarded_write_fenced :
    (id : String) (ws : List (Write × ℕ)) (s : Store) (vs : List Assign) (now : ℕ)
    → find_row id (run ws s).slots ≢ none
    → check_assignments vs (run ws s) ≡ (returned tt, run ws s)
    → set_runtime_if_generation id (generation_at id s) vs now (run ws s) ≡ (
        if eqb (bump_count id ws s) 0 then land id vs now (run ws s) else (returned none, run ws s))
guarded_write_fenced id ws s vs now there valid =
    elim (Option-cases (find_row id (run ws s).slots)) [
      | inl e ↦ absurd (there e)
      | inr (r, e) ↦
          write_at_row id (generation_at id s) (bump_count id ws s) vs now (run ws s) r e
            (ground (arith, generation-run id ws s)) valid
    ]

-- ===== src/Store/Rows.antt =====
-- What an `UPDATE … WHERE id = ?` of vps/store.py does to the row that a later SELECT finds, and the
-- rows that each operation leaves.
use kui_local_multi_exit.Prelude.{
  ℕ, ◌≡◌, refl, String, Bool, Option, none, some, List, [], ◌∷◌, ◌==◌, eq_iff, arith, ltb,
  if◌then◌else◌, ◌∙◌, ◌⊎◌,
}
use kui_local_multi_exit.Models.{ExitSlotSnapshot}
use kui_local_multi_exit.Store.{Store, find_row, update_rows, get_slot}
use kui_local_multi_exit.Store.Slots.{
  updated_row, update_slot, failed_row, record_failure, enabled_row, enable_slot,
}
use kui_local_multi_exit.Store.Runtime.{
  Assign, assigned_row, assign_value, set_runtime, set_runtime_if_generation, touch_slot,
}

abbrev pub mapped :
    (ExitSlotSnapshot → ExitSlotSnapshot) → Option ExitSlotSnapshot → Option ExitSlotSnapshot
mapped f none = none
mapped f (some r) = some (f r)

pub find-id :
    (id : String) (rows : List ExitSlotSnapshot) (r : ExitSlotSnapshot)
    → find_row id rows ≡ some r
    → r.id ≡ id
unfolding find_row
find-id id [] r e = absurd (cc)
find-id id (q ∷ rows) r e = ground (arith, eq_iff q.id id, find-id id rows r)

pub find-update :
    (i j : String) (f : ExitSlotSnapshot → ExitSlotSnapshot)
    → ((r : ExitSlotSnapshot) → (f r).id ≡ r.id)
    → (rows : List ExitSlotSnapshot)
    → find_row j (update_rows i f rows)
      ≡ (if i == j then mapped f (find_row j rows) else find_row j rows)
unfolding find_row update_rows
find-update i j f same [] = ground arith
find-update i j f same (r ∷ rows) =
    ground (arith, same r, eq_iff i j, eq_iff r.id i, eq_iff r.id j, find-update i j f same rows)

id-assign : (v : Assign) (r : ExitSlotSnapshot) → (assign_value v r).id ≡ r.id
unfolding assign_value
id-assign (Assign.state st) r = ground arith
id-assign _ r = refl

generation-assign :
    (v : Assign) (r : ExitSlotSnapshot) → (assign_value v r).generation ≡ r.generation
unfolding assign_value
generation-assign (Assign.state st) r = ground arith
generation-assign _ r = refl

pub generation-assigned :
    (vs : List Assign) (now : ℕ) (r : ExitSlotSnapshot)
    → (assigned_row vs now r).generation ≡ r.generation
unfolding assigned_row
generation-assigned [] now r = refl
generation-assigned (v ∷ vs) now r =
    generation-assigned vs now (assign_value v r) ∙ generation-assign v r

pub id-assigned :
    (vs : List Assign) (now : ℕ) (r : ExitSlotSnapshot) → (assigned_row vs now r).id ≡ r.id
unfolding assigned_row
id-assigned [] now r = refl
id-assigned (v ∷ vs) now r = id-assigned vs now (assign_value v r) ∙ id-assign v r

-- The rows behind each operation, whatever it returns.
module _ (id : String) (s : Store) (now : ℕ) where
  pub slots-update_slot :
      (c : Option String) (p : Option ℕ) (b : Option Bool) (r : ExitSlotSnapshot)
      → find_row id s.slots ≡ some r
      → ((update_slot id c p b now s).1.slots ≡ s.slots)
        ⊎ ((update_slot id c p b now s).1.slots ≡ update_rows id (updated_row r c p b now) s.slots)
  unfolding update_slot
  slots-update_slot c p b r e = rw (e, get_slot) (ground arith)

  pub slots-update_slot_missing :
      (c : Option String) (p : Option ℕ) (b : Option Bool)
      → find_row id s.slots ≡ none
      → (update_slot id c p b now s).1.slots ≡ s.slots
  unfolding update_slot
  slots-update_slot_missing c p b e = rw (e, get_slot)

  pub slots-record_failure :
      (error : String) (m : ℕ) (r : ExitSlotSnapshot)
      → find_row id s.slots ≡ some r
      → (record_failure id error m now s).1.slots
        ≡ (if ltb m 1 then s.slots else update_rows id (failed_row r error m now) s.slots)
  unfolding record_failure
  slots-record_failure error m r e = ground arith

  pub slots-record_failure_missing :
      (error : String) (m : ℕ)
      → find_row id s.slots ≡ none
      → (record_failure id error m now s).1.slots ≡ s.slots
  unfolding record_failure
  slots-record_failure_missing error m e = ground arith

  pub slots-enable_slot : (enable_slot id now s).1.slots ≡ update_rows id (enabled_row now) s.slots
  unfolding enable_slot
  slots-enable_slot = ground arith

  -- An `UPDATE` that passes its checks leaves the rest of the row set alone.
  pub slots-set_runtime :
      (vs : List Assign)
      → ((set_runtime id vs now s).1.slots ≡ s.slots)
        ⊎ ((set_runtime id vs now s).1.slots ≡ update_rows id (assigned_row vs now) s.slots)
  unfolding set_runtime
  slots-set_runtime vs = ground arith

  pub slots-set_runtime_if_generation :
      (g : ℕ) (vs : List Assign)
      → ((set_runtime_if_generation id g vs now s).1.slots ≡ s.slots)
        ⊎ ((set_runtime_if_generation id g vs now s).1.slots
            ≡ update_rows id (assigned_row vs now) s.slots)
  unfolding set_runtime_if_generation
  slots-set_runtime_if_generation g vs = ground arith

  pub slots-touch_slot :
      (g : Option ℕ)
      → ((touch_slot id g now s).1.slots ≡ s.slots)
        ⊎ ((touch_slot id g now s).1.slots
            ≡ update_rows id (λ r. record r { updated_at = now }) s.slots)
  unfolding touch_slot
  slots-touch_slot g = ground arith

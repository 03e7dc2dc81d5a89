-- ===== src/Store/Generation.antt =====
-- How each write to `exit_slots` in vps/store.py moves the `generation` of the slots.
use kui_local_multi_exit.Prelude.{
  ℕ, ◌+◌, ◌≡◌, refl, String, Bool, true, false, ◌&&◌, Option, none, some, List, ◌==◌, eq_iff,
  eq_refl, arith, if◌then◌else◌, Option-cases, inl, inr, subst,
}
use kui_local_multi_exit.Prelude.Exec.{succeeded}
use kui_local_multi_exit.Models.{ExitSlotSnapshot}
use kui_local_multi_exit.Store.{Store, find_row, update_rows}
use kui_local_multi_exit.Store.Slots.{
  updated_row, update_slot, failed_row, record_failure, enabled_row, enable_slot,
}
use kui_local_multi_exit.Store.Runtime.{
  Assign, assigned_row, set_runtime, set_runtime_if_generation, touch_slot,
}
use kui_local_multi_exit.Store.Rows.{
  find-update, id-assigned, generation-assigned, slots-set_runtime,
}

-- The operations that write to `exit_slots`, with their arguments.
pub data Write : Type 0 where
  update : String → Option String → Option ℕ → Option Bool → Write
  failure : String → String → ℕ → Write
  enable : String → Write
  runtime : String → List Assign → Write
  guarded : String → ℕ → List Assign → Write
  touch : String → Option ℕ → Write

unfoldable pub after : Write → ℕ → Store → Store
after (update id c p b) now s = (update_slot id c p b now s).1
after (failure id e m) now s = (record_failure id e m now s).1
after (enable id) now s = (enable_slot id now s).1
after (runtime id vs) now s = (set_runtime id vs now s).1
after (guarded id g vs) now s = (set_runtime_if_generation id g vs now s).1
after (touch id g) now s = (touch_slot id g now s).1

-- A write that moves the slot on to a new generation: it names the slot, and it did not raise.
abbrev pub bumps : String → Write → ℕ → Store → Bool
bumps id (update j c p b) now s = j == id && succeeded (update_slot j c p b now s).0
bumps id (failure j e m) now s = j == id && succeeded (record_failure j e m now s).0
bumps id (enable j) now s = j == id && succeeded (enable_slot j now s).0
bumps id (runtime j vs) now s = false
bumps id (guarded j g vs) now s = false
bumps id (touch j g) now s = false

abbrev generation_in : String → List ExitSlotSnapshot → ℕ
generation_in id rows = elim (find_row id rows) [ none ↦ 0 | some r ↦ r.generation ]

-- The generation that `get_slot` shows, 0 where there is no such row.
abbrev pub generation_at : String → Store → ℕ
generation_at id s = generation_in id s.slots

abbrev pub grown : Bool → ℕ → ℕ
grown b g = if b then g + 1 else g

generation-update :
    (id j : String) (f : ExitSlotSnapshot → ExitSlotSnapshot) (k : ℕ)
    → ((r : ExitSlotSnapshot) → (f r).id ≡ r.id)
    → ((r : ExitSlotSnapshot) → (f r).generation ≡ r.generation + k)
    → (rows : List ExitSlotSnapshot) → (r : ExitSlotSnapshot) → find_row j rows ≡ some r
    → generation_in id (update_rows j f rows) ≡ generation_in id rows + (if j == id then k else 0)
generation-update id j f k same grow rows r e =
    let here : j == id ≡ true → find_row id rows ≡ some r =
      λ h. subst (λ i. find_row i rows ≡ some r) ((eq_iff j id).0 h) e in
    ground (arith, find-update j id f same rows, grow r, here)

module _ (id : String) (now : ℕ) (s : Store) where
  update-grown :
      (j : String) (c : Option String) (p : Option ℕ) (b : Option Bool)
      → generation_at id (after (update j c p b) now s)
        ≡ grown (bumps id (update j c p b) now s) (generation_at id s)
  unfolding after update_slot
  update-grown j c p b = elim (Option-cases (find_row j s.slots)) [
    | inl e ↦ ground arith
    | inr (r, e) ↦ ground (
      arith,
      eq_iff j id,
      eq_refl j,
      find-update j j (updated_row r c p b now) (λ q. refl) s.slots,
      find-update j id (updated_row r c p b now) (λ q. refl) s.slots,
      generation-update id j (updated_row r c p b now) 1 (λ q. refl) (λ q. refl) s.slots r e,
    )
  ]

  failure-grown :
      (j : String) (error : String) (m : ℕ)
      → generation_at id (after (failure j error m) now s)
        ≡ grown (bumps id (failure j error m) now s) (generation_at id s)
  unfolding after record_failure
  failure-grown j error m = elim (Option-cases (find_row j s.slots)) [
    | inl e ↦ ground arith
    | inr (r, e) ↦ ground (
      arith,
      eq_iff j id,
      eq_refl j,
      find-update j j (failed_row r error m now) (λ q. refl) s.slots,
      find-update j id (failed_row r error m now) (λ q. refl) s.slots,
      generation-update id j (failed_row r error m now) 1 (λ q. refl) (λ q. refl) s.slots r e,
    )
  ]

  enable-grown :
      (j : String)
      → generation_at id (after (enable j) now s)
        ≡ grown (bumps id (enable j) now s) (generation_at id s)
  unfolding after enable_slot
  enable-grown j = elim (Option-cases (find_row j s.slots)) [
    | inl e ↦ ground (
      arith,
      eq_iff j id,
      eq_refl j,
      find-update j j (enabled_row now) (λ q. refl) s.slots,
      find-update j id (enabled_row now) (λ q. refl) s.slots,
    )
    | inr (r, e) ↦ ground (
      arith,
      eq_iff j id,
      eq_refl j,
      find-update j j (enabled_row now) (λ q. refl) s.slots,
      find-update j id (enabled_row now) (λ q. refl) s.slots,
      generation-update id j (enabled_row now) 1 (λ q. refl) (λ q. refl) s.slots r e,
    )
  ]

  -- A write that keeps the ids and the generations of all rows keeps what `get_slot` shows of them.
  same-generation :
      (j : String) (f : ExitSlotSnapshot → ExitSlotSnapshot)
      → ((r : ExitSlotSnapshot) → (f r).id ≡ r.id)
      → ((r : ExitSlotSnapshot) → (f r).generation ≡ r.generation)
      → generation_in id (update_rows j f s.slots) ≡ generation_in id s.slots
  same-generation j f same keeps = elim (Option-cases (find_row id s.slots)) [
    | inl e ↦ ground (arith, find-update j id f same s.slots)
    | inr (r, e) ↦ ground (arith, find-update j id f same s.slots, keeps r)
  ]

  assigned-same :
      (j : String) (vs : List Assign)
      → generation_in id (update_rows j (assigned_row vs now) s.slots) ≡ generation_in id s.slots
  assigned-same j vs =
      same-generation j (assigned_row vs now) (id-assigned vs now) (generation-assigned vs now)

  -- A write to `exit_slots` moves a slot on to the next generation if it updates, fails or enables
  -- that slot and does not raise, and leaves its generation otherwise.
  pub generation-after :
      (w : Write) → generation_at id (after w now s) ≡ grown (bumps id w now s) (generation_at id s)
  unfolding after
  generation-after (update j c p b) = update-grown j c p b
  generation-after (failure j error m) = failure-grown j error m
  generation-after (enable j) = enable-grown j
  generation-after (runtime j vs) = ground (arith, slots-set_runtime j s now vs, assigned-same j vs)
  generation-after (guarded j g vs) =
      unfold set_runtime_if_generation in ground (arith, assigned-same j vs)
  generation-after (touch j none) = unfold touch_slot in same-generation j _ (λ r. refl) (λ r. refl)
  generation-after (touch j (some g)) =
      unfold touch_slot in
      ground (arith, same-generation j (λ r. record r { updated_at = now }) (λ r. refl) (λ r. refl))

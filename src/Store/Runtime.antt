-- ===== src/Store/Runtime.antt =====
-- vps/store.py: `set_runtime` and its variants, which write the columns of a running slot.
use kui_local_multi_exit.Prelude.{
  ℕ, String, ◌<>◌, Bool, true, false, Option, none, some, List, [], ◌∷◌, eqb, if◌then◌else◌,
}
use kui_local_multi_exit.Prelude.Exec.{Exec, returned, value_error, modify, pure, raise, ◌>>◌}
use kui_local_multi_exit.Json.{Fields}
use kui_local_multi_exit.Models.{ExitSlotSnapshot, state_named}
use kui_local_multi_exit.Store.{Store, set_slots, find_row, update_rows, get_slot}

-- The keyword arguments of `set_runtime`; `other` is a name outside `allowed`.
pub data Assign : Type 0 where
  state entry_ip egress_ip last_error other : String → Assign
  current_node check_result : Fields → Assign
  failure_streak : ℕ → Assign

abbrev unsupported : List Assign → List String
unsupported [] = []
unsupported (other name ∷ vs) = name ∷ unsupported vs
unsupported (_ ∷ vs) = unsupported vs

abbrev bad_state : List Assign → Bool
bad_state [] = false
bad_state (state s ∷ vs) = elim (state_named s) [ none ↦ true | some _ ↦ bad_state vs ]
bad_state (_ ∷ vs) = bad_state vs

unfoldable pub assign_value : Assign → ExitSlotSnapshot → ExitSlotSnapshot
unfolding state_named
assign_value (state s) r = elim (state_named s) [ none ↦ r | some st ↦ record r { state = st } ]
assign_value (entry_ip v) r = record r { entry_ip = v }
assign_value (egress_ip v) r = record r { egress_ip = v }
assign_value (last_error v) r = record r { last_error = v }
assign_value (current_node v) r = record r { current_node = v }
assign_value (check_result v) r = record r { check_result = v }
assign_value (failure_streak v) r = record r { failure_streak = v }
assign_value (other n) r = r

unfoldable pub assigned_row : List Assign → ℕ → ExitSlotSnapshot → ExitSlotSnapshot
unfolding assign_value
assigned_row [] now r = record r { updated_at = now }
assigned_row (v ∷ vs) now r = assigned_row vs now (assign_value v r)

-- The two refusals of `_runtime_assignments`; the text does not list the names in order.
unfoldable pub check_assignments : List Assign → Exec Store Unit
unfolding state_named
check_assignments vs = elim (unsupported vs) [
  | name ∷ names ↦ raise (value_error ("unsupported runtime fields: " <> name))
  | [] ↦ if bad_state vs then raise (value_error "invalid state") else pure tt
]

unfoldable pub set_runtime : String → List Assign → ℕ → Exec Store ExitSlotSnapshot
unfolding check_assignments assigned_row get_slot
set_runtime id values now = do
  check_assignments values
  modify (λ s. set_slots s (update_rows id (assigned_row values now) s.slots))
  get_slot id

abbrev pub has_generation : ℕ → Option ExitSlotSnapshot → Bool
has_generation g none = false
has_generation g (some r) = eqb r.generation g

-- UPDATE … WHERE id = ? AND generation = ?: no row matches if the generation has moved on.
unfoldable pub set_runtime_if_generation :
    String → ℕ → List Assign → ℕ → Exec Store (Option ExitSlotSnapshot)
unfolding check_assignments assigned_row find_row
set_runtime_if_generation id generation values now = do
  check_assignments values
  λ s.
      if has_generation generation (find_row id s.slots)
      then (let rows = update_rows id (assigned_row values now) s.slots in
          (returned (find_row id rows), set_slots s rows))
      else (returned none, s)

unfoldable pub touch_slot : String → Option ℕ → ℕ → Exec Store Bool
unfolding find_row
touch_slot id none now s = (
  returned (elim (find_row id s.slots) [ none ↦ false | some _ ↦ true ]),
  set_slots s (update_rows id (λ r. record r { updated_at = now }) s.slots),
)
touch_slot id (some g) now s =
    if has_generation g (find_row id s.slots)
    then (returned true, set_slots s (update_rows id (λ r. record r { updated_at = now }) s.slots))
    else (returned false, s)

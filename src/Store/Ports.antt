-- ===== src/Store/Ports.antt =====
-- The columns of vps/store.py that the proxies rely on: no two slots share a proxy port, every port
-- lies in the range of the template, and every country is a code or ANY.
use kui_local_multi_exit.Prelude.{
  ℕ, ◌≤◌, ◌≡◌, ◌≢◌, refl, sym, String, Bool, true, false, Option, some, List, [], ◌∷◌, ◌==◌, eq_iff,
  arith, ltb, Option-cases, Bool-cases, inl, inr, ◌⊎◌, ◌∙◌, ap, subst,
}
use kui_local_multi_exit.Models.{ExitSlotSnapshot}
use kui_local_multi_exit.SlotConfig.{base_proxy_port, max_proxy_port}
use kui_local_multi_exit.Store.{Store, find_row, update_rows, get_slot}
use kui_local_multi_exit.Store.Slots.{
  port_taken, is_slot_country, next_country, or_else, updated_row, update_slot, failed_row,
  record_failure, enabled_row, enable_slot,
}
use kui_local_multi_exit.Store.Runtime.{Assign, assign_value, assigned_row}
use kui_local_multi_exit.Store.Generation.{
  Write, after, update, failure, enable, runtime, guarded, touch,
}
use kui_local_multi_exit.Store.Rows.{
  find-update, id-assigned, slots-update_slot_missing, slots-record_failure,
  slots-record_failure_missing, slots-enable_slot, slots-set_runtime,
  slots-set_runtime_if_generation, slots-touch_slot,
}

abbrev pub Rows : Type 0
Rows = List ExitSlotSnapshot

pub record IsSound (rows : Rows) : Type 0 where
  pub distinct :
      (i j : String) (r q : ExitSlotSnapshot)
      → find_row i rows ≡ some r
      → find_row j rows ≡ some q
      → r.proxy_port ≡ q.proxy_port
      → i ≡ j
  pub in_range :
      (i : String) (r : ExitSlotSnapshot)
      → find_row i rows ≡ some r
      → (base_proxy_port ≤ r.proxy_port) × (r.proxy_port ≤ max_proxy_port)
  pub country :
      (i : String) (r : ExitSlotSnapshot)
      → find_row i rows ≡ some r
      → is_slot_country r.country ≡ true

-- What a write must guarantee of the row `r` that it puts at `id`.
pub record Fits (id : String) (rows : Rows) (r : ExitSlotSnapshot) : Type 0 where
  pub free :
      (j : String) (q : ExitSlotSnapshot)
      → find_row j rows ≡ some q
      → q.proxy_port ≡ r.proxy_port
      → j ≡ id
  pub in_range : (base_proxy_port ≤ r.proxy_port) × (r.proxy_port ≤ max_proxy_port)
  pub country : is_slot_country r.country ≡ true

not_taken :
    (port : ℕ) (id j : String) (rows : Rows) (q : ExitSlotSnapshot)
    → port_taken port id rows ≡ false
    → find_row j rows ≡ some q
    → q.proxy_port ≡ port
    → j ≡ id
unfolding port_taken find_row
not_taken port id j [] q h e p = absurd (cc)
not_taken port id j (r ∷ rows) q h e p =
    ground (arith, eq_iff r.id j, eq_iff r.id id, not_taken port id j rows q)

module _ (id : String) (f : ExitSlotSnapshot → ExitSlotSnapshot)
    (same : (r : ExitSlotSnapshot) → (f r).id ≡ r.id) (rows : Rows) (sound : IsSound rows)
    (fits : (r : ExitSlotSnapshot) → find_row id rows ≡ some r → Fits id rows (f r)) where
  -- The row found after the write: the written one, or one that was there under another id.
  found :
      (j : String) (r : ExitSlotSnapshot)
      → find_row j (update_rows id f rows) ≡ some r
      → ((j ≡ id) × Fits id rows r) ⊎ ((j ≢ id) × (find_row j rows ≡ some r))
  found j r e = elim (Bool-cases (id == j)) [
    | inl h ↦ elim (Option-cases (find_row id rows)) [
      | inl m ↦ absurd (ground (arith, find-update id j f same rows, eq_iff id j))
      | inr (q, m) ↦ inl (
        sym ((eq_iff id j).0 h),
        subst (Fits id rows) (ground (arith, find-update id j f same rows, eq_iff id j)) (fits q m),
      )
    ]
    | inr h ↦
        inr (λ k. cc (h, (eq_iff id j).1 (sym k)), ground (arith, find-update id j f same rows))
  ]

  pub update-IsSound : IsSound (update_rows id f rows)
  update-IsSound = record {
    distinct = λ i j r q a b p. elim (found i r a) [
      | inl (x, fr) ↦ elim (found j q b) [
        | inl (y, fq) ↦ x ∙ sym y
        | inr (y, m) ↦ x ∙ sym (fr.free j q m (sym p))
      ]
      | inr (x, k) ↦ elim (found j q b) [
        | inl (y, fq) ↦ fq.free i r k p ∙ sym y
        | inr (y, m) ↦ sound.distinct i j r q k m p
      ]
    ];
    in_range = λ i r a. elim (found i r a) [
      | inl (x, fr) ↦ fr.in_range
      | inr (x, k) ↦ sound.in_range i r k
    ];
    country =
        λ i r a. elim (found i r a) [ inl (x, fr) ↦ fr.country | inr (x, k) ↦ sound.country i r k ];
  }

-- A row that keeps its port and its country still fits.
kept-Fits :
    (id : String) (rows : Rows) (r q : ExitSlotSnapshot)
    → IsSound rows
    → find_row id rows ≡ some r
    → q.proxy_port ≡ r.proxy_port
    → q.country ≡ r.country
    → Fits id rows q
kept-Fits id rows r q sound e p c = record {
  free = λ j x m k. sound.distinct j id x r m e (k ∙ p);
  in_range = ground (arith, sound.in_range id r e);
  country = ap is_slot_country c ∙ sound.country id r e;
}

port-assign : (v : Assign) (r : ExitSlotSnapshot) → (assign_value v r).proxy_port ≡ r.proxy_port
unfolding assign_value
port-assign (Assign.state st) r = ground arith
port-assign _ r = refl

country-assign : (v : Assign) (r : ExitSlotSnapshot) → (assign_value v r).country ≡ r.country
unfolding assign_value
country-assign (Assign.state st) r = ground arith
country-assign _ r = refl

port-assigned :
    (vs : List Assign) (now : ℕ) (r : ExitSlotSnapshot)
    → (assigned_row vs now r).proxy_port ≡ r.proxy_port
unfolding assigned_row
port-assigned [] now r = refl
port-assigned (v ∷ vs) now r = port-assigned vs now (assign_value v r) ∙ port-assign v r

country-assigned :
    (vs : List Assign) (now : ℕ) (r : ExitSlotSnapshot)
    → (assigned_row vs now r).country ≡ r.country
unfolding assigned_row
country-assigned [] now r = refl
country-assigned (v ∷ vs) now r = country-assigned vs now (assign_value v r) ∙ country-assign v r

-- An update of a slot that is there leaves the rows as they were, or it has written the row with a
-- country that is a code or ANY and a port that is in the range and free.
pub update_slot_checked :
    (id : String) (now : ℕ) (s : Store) (c : Option String) (p : Option ℕ) (b : Option Bool)
    → (r : ExitSlotSnapshot) → find_row id s.slots ≡ some r
    → ((update_slot id c p b now s).1.slots ≡ s.slots)
      ⊎ (((update_slot id c p b now s).1.slots ≡ update_rows id (updated_row r c p b now) s.slots)
          × (is_slot_country (next_country c r) ≡ true)
          × (base_proxy_port ≤ or_else p r.proxy_port)
          × (or_else p r.proxy_port ≤ max_proxy_port)
          × (port_taken (or_else p r.proxy_port) id s.slots ≡ false))
unfolding update_slot
update_slot_checked id now s c p b r e = rw (e, get_slot) (ground arith)

module _ (id : String) (now : ℕ) (s : Store) (sound : IsSound s.slots) where
  assigned-IsSound : (vs : List Assign) → IsSound (update_rows id (assigned_row vs now) s.slots)
  assigned-IsSound vs =
      update-IsSound id (assigned_row vs now) (id-assigned vs now) s.slots sound
        λ r e. kept-Fits id s.slots r _ sound e (port-assigned vs now r) (country-assigned vs now r)

  touched-IsSound : IsSound (update_rows id (λ r. record r { updated_at = now }) s.slots)
  touched-IsSound =
      update-IsSound id _ (λ r. refl) s.slots sound
        λ r e. kept-Fits id s.slots r _ sound e refl refl

  update_slot-IsSound :
      (c : Option String) (p : Option ℕ) (b : Option Bool)
      → IsSound (update_slot id c p b now s).1.slots
  update_slot-IsSound c p b = elim (Option-cases (find_row id s.slots)) [
    | inl e ↦ rw (slots-update_slot_missing id s now c p b e) sound
    | inr (r, e) ↦ elim (update_slot_checked id now s c p b r e) [
      | inl same ↦ rw same sound
      | inr (written, ok_country, low, high, free) ↦ rw written (
          update-IsSound id (updated_row r c p b now) (λ q. unfold updated_row in refl) s.slots
            sound
            λ q m.
              unfold updated_row in
              record {
                free = λ j x n k. not_taken _ id j s.slots x free n k;
                in_range = (low, high);
                country = ok_country;
              })
    ]
  ]

  failure-IsSound : (error : String) (m : ℕ) → IsSound (record_failure id error m now s).1.slots
  failure-IsSound error m = elim (Option-cases (find_row id s.slots)) [
    | inl e ↦ rw (slots-record_failure_missing id s now error m e) sound
    | inr (r, e) ↦ elim (Bool-cases (ltb m 1)) [
      | inl h ↦ rw (slots-record_failure id s now error m r e, h) sound
      | inr h ↦
          rw (slots-record_failure id s now error m r e, h)
            (update-IsSound id (failed_row r error m now) (λ q. unfold failed_row in refl) s.slots
              sound λ q n. unfold failed_row in kept-Fits id s.slots q _ sound n refl refl)
    ]
  ]

  enable-IsSound : IsSound (enable_slot id now s).1.slots
  enable-IsSound = rw (slots-enable_slot id s now) (
      update-IsSound id (enabled_row now) (λ q. unfold enabled_row in refl) s.slots sound
        λ q n. unfold enabled_row in kept-Fits id s.slots q _ sound n refl refl)

-- Every write to `exit_slots` keeps the proxy ports of the slots distinct and in the range of the
-- template, and their countries codes or ANY, if they are so before.
pub after-IsSound :
    (w : Write) (now : ℕ) (s : Store) → IsSound s.slots → IsSound (after w now s).slots
unfolding after
after-IsSound (update id c p b) now s sound = update_slot-IsSound id now s sound c p b
after-IsSound (failure id error m) now s sound = failure-IsSound id now s sound error m
after-IsSound (enable id) now s sound = enable-IsSound id now s sound
after-IsSound (runtime id vs) now s sound = elim (slots-set_runtime id s now vs) [
  | inl e ↦ rw e sound
  | inr e ↦ rw e (assigned-IsSound id now s sound vs)
]
after-IsSound (guarded id g vs) now s sound = elim (slots-set_runtime_if_generation id s now g vs) [
  | inl e ↦ rw e sound
  | inr e ↦ rw e (assigned-IsSound id now s sound vs)
]
after-IsSound (touch id g) now s sound = elim (slots-touch_slot id s now g) [
  | inl e ↦ rw e sound
  | inr e ↦ rw e (touched-IsSound id now s sound)
]

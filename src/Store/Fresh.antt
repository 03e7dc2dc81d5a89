-- ===== src/Store/Fresh.antt =====
-- `initialize` of vps/store.py: the rows that the template creates, and those that are there, meet
-- what the proxies rely on.
use kui_local_multi_exit.Prelude.{
  ℕ, zero, suc, ◌+◌, ◌≤◌, ◌≡◌, refl, sym, ap, subst, String, Bool, true, not, ◌&&◌, some, List, [],
  ◌∷◌, arith, any, All, length, take, leb, ◌⊎◌, inl, inr, Bool-cases,
}
use kui_local_multi_exit.Prelude.Text.{is_country_code}
use kui_local_multi_exit.Models.{ExitSlotSnapshot}
use kui_local_multi_exit.SlotConfig.{base_proxy_port, max_proxy_port, max_slot_count, slot_id}
use kui_local_multi_exit.Store
use kui_local_multi_exit.Store.{Store, find_row, update_rows, record_event}
use kui_local_multi_exit.Store.Slots.{is_slot_country}
use kui_local_multi_exit.Store.Rows.{find-id}
use kui_local_multi_exit.Store.Ports.{IsSound, update-IsSound, after-IsSound}
use kui_local_multi_exit.Store.Generation.{Write, after}
use kui_local_multi_exit.Store.Fencing.{run}
use kui_local_multi_exit.Store.Template.{
  repeat, slot_countries, template_row, conflicts, insert_row, insert_or_ignore, insert_template,
  migrate_rows, migrate_countries, initialize, is_allowed_country,
}

find-insert :
    (j : String) (r q : ExitSlotSnapshot) (rows : List ExitSlotSnapshot)
    → find_row j (insert_row r rows) ≡ some q
    → (q ≡ r) ⊎ (find_row j rows ≡ some q)
unfolding find_row insert_row
find-insert j r q [] e = ground arith
find-insert j r q (p ∷ rows) e = ground (arith, find-insert j r q rows)

find-any :
    (j : String) (q : ExitSlotSnapshot) (p : ExitSlotSnapshot → Bool) (rows : List ExitSlotSnapshot)
    → find_row j rows ≡ some q
    → p q ≡ true
    → any p rows ≡ true
unfolding find_row
find-any j q p [] e h = absurd (cc)
find-any j q p (r ∷ rows) e h = ground (arith, find-any j q p rows, λ (k : r ≡ q). ap p k)

same_port_conflicts : (r q : ExitSlotSnapshot) → r.proxy_port ≡ q.proxy_port → conflicts r q ≡ true
unfolding conflicts
same_port_conflicts r q e = ground arith

-- A row that fits by itself, put into rows that it does not conflict with.
insert-IsSound :
    (r : ExitSlotSnapshot) (rows : List ExitSlotSnapshot)
    → IsSound rows
    → base_proxy_port ≤ r.proxy_port
    → r.proxy_port ≤ max_proxy_port
    → is_slot_country r.country ≡ true
    → IsSound (insert_or_ignore r rows)
unfolding insert_or_ignore
insert-IsSound r rows sound low high country = elim (Bool-cases (any (conflicts r) rows)) [
  | inl c ↦ rw c sound
  | inr free ↦ rw free (record {
    distinct = λ i j p q a b e. elim (find-insert i r p rows a) [
      | inl x ↦ elim (find-insert j r q rows b) [
        | inl y ↦ cc (x, y, find-id i (insert_row r rows) p a, find-id j (insert_row r rows) q b)
        | inr y ↦
            absurd
              (cc (free, find-any j q (conflicts r) rows y (same_port_conflicts r q (cc (x, e)))))
      ]
      | inr x ↦ elim (find-insert j r q rows b) [
        | inl y ↦
            absurd
              (cc (free, find-any i p (conflicts r) rows x (same_port_conflicts r p (cc (y, e)))))
        | inr y ↦ sound.distinct i j p q x y e
      ]
    ];
    in_range = λ i p a. elim (find-insert i r p rows a) [
      | inl x ↦ (
        subst (λ (z : ExitSlotSnapshot). base_proxy_port ≤ z.proxy_port) (sym x) low,
        subst (λ (z : ExitSlotSnapshot). z.proxy_port ≤ max_proxy_port) (sym x) high,
      )
      | inr x ↦ sound.in_range i p x
    ];
    country = λ i p a. elim (find-insert i r p rows a) [
      | inl x ↦ subst (λ (z : ExitSlotSnapshot). is_slot_country z.country ≡ true) (sym x) country
      | inr x ↦ sound.country i p x
    ];
  })
]

abbrev Countries : List String → Type 0
Countries = All (λ c. is_slot_country c ≡ true)

template-IsSound :
    (index : ℕ) (cs : List String) (now : ℕ) (rows : List ExitSlotSnapshot)
    → IsSound rows
    → Countries cs
    → index + length cs ≤ max_slot_count
    → IsSound (insert_template index cs now rows)
unfolding insert_template template_row
template-IsSound index [] now rows sound ok room = sound
template-IsSound index (c ∷ cs) now rows sound ok room =
    template-IsSound (index + 1) cs now (insert_or_ignore (template_row index c now) rows)
      (insert-IsSound (template_row index c now) rows sound (omega arith) (omega arith) ok.0) ok.1
      (omega arith)

migrate-IsSound :
    (index : ℕ) (cs : List String) (now : ℕ) (rows : List ExitSlotSnapshot)
    → IsSound rows
    → Countries cs
    → IsSound (migrate_rows index cs now rows)
unfolding migrate_rows
migrate-IsSound index [] now rows sound ok = sound
migrate-IsSound index (c ∷ cs) now rows sound ok =
    migrate-IsSound (index + 1) cs now (update_rows (slot_id index) moved rows)
      (update-IsSound (slot_id index) moved (λ r. refl) rows sound
        (λ r there. record {
          free = λ j q m e. sound.distinct j (slot_id index) q r m there e;
          in_range = sound.in_range (slot_id index) r there;
          country = ok.0;
        }))
      ok.1
  where
    moved : ExitSlotSnapshot → ExitSlotSnapshot
    moved r = record r { country = c; generation = r.generation + 1; updated_at = now }

Countries-repeat :
    (n : ℕ) (c : String) (rest : List String)
    → is_slot_country c ≡ true
    → Countries rest
    → Countries (repeat n c rest)
Countries-repeat zero c rest h k = k
Countries-repeat (suc n) c rest h k = (h, Countries-repeat n c rest h k)

Countries-take : (n : ℕ) (cs : List String) → Countries cs → Countries (take n cs)
Countries-take zero cs h = tt
Countries-take (suc n) [] h = tt
Countries-take (suc n) (c ∷ cs) h = (h.0, Countries-take n cs h.1)

length-take_le : (n : ℕ) (cs : List String) → length (take n cs) ≤ n
length-take_le zero cs = omega arith
length-take_le (suc n) [] = omega arith
length-take_le (suc n) (c ∷ cs) = omega (arith, length-take_le n cs)

template-Countries : Countries slot_countries
unfolding is_slot_country is_country_code
template-Countries =
    let two = repeat 2 "US" [] in
    let six = repeat 4 "KR" two in
    let ten = repeat 4 "JP" six in
    let eighteen = repeat 8 "US" ten in
    let most = repeat 8 "KR" eighteen in
    Countries-repeat 8 "JP" most refl (
      Countries-repeat 8 "KR" eighteen refl (
        Countries-repeat 8 "US" ten refl (
          Countries-repeat 4 "JP" six refl
            (Countries-repeat 4 "KR" two refl (Countries-repeat 2 "US" [] refl tt)))))

migrate_countries-IsSound :
    (n now : ℕ) (s : Store) → IsSound s.slots → IsSound (migrate_countries n now s).1.slots
unfolding migrate_countries record_event
migrate_countries-IsSound n now s sound =
    elim (Bool-cases (any (λ r. not (is_allowed_country r.country)) s.slots)) [
      | inl h ↦ rw h (
          migrate-IsSound 1 (take n slot_countries) now s.slots sound
            (Countries-take n slot_countries template-Countries))
      | inr h ↦ rw h sound
    ]

initialize-IsSound :
    (n now : ℕ) (s : Store) → IsSound s.slots → IsSound (initialize n now s).1.slots
unfolding initialize
initialize-IsSound n now s sound = elim (Bool-cases (leb 1 n && leb n max_slot_count)) [
  | inr h ↦ rw h sound
  | inl h ↦ rw h (
      migrate_countries-IsSound n now
        (record s { slots = insert_template 0 (take n slot_countries) now s.slots })
        (template-IsSound 0 (take n slot_countries) now s.slots sound
          (Countries-take n slot_countries template-Countries)
          (ground (arith, length-take_le n slot_countries))))
]

run-IsSound : (ws : List (Write × ℕ)) (s : Store) → IsSound s.slots → IsSound (run ws s).slots
unfolding run
run-IsSound [] s sound = sound
run-IsSound ((w, now) ∷ ws) s sound = run-IsSound ws (after w now s) (after-IsSound w now s sound)

empty-IsSound : IsSound []
unfolding find_row
empty-IsSound = record {
  distinct = λ i j r q a b e. absurd (cc);
  in_range = λ i r a. absurd (cc);
  country = λ i r a. absurd (cc);
}

-- Whatever is written to the slots of a store that `initialize` has set up, with whatever slot count
-- and twice over, from an empty database on: no two slots share a proxy port, every port lies in
-- the range of the template, and every country is a code or ANY.
pub reachable-IsSound :
    (n first again m : ℕ) (ws vs : List (Write × ℕ))
    → IsSound (run vs (initialize m again (run ws (initialize n first Store.empty).1)).1).slots
reachable-IsSound n first again m ws vs =
    run-IsSound vs (initialize m again (run ws (initialize n first Store.empty).1)).1 (
      initialize-IsSound m again (run ws (initialize n first Store.empty).1) (
        run-IsSound ws (initialize n first Store.empty).1
          (initialize-IsSound n first Store.empty empty-IsSound)))

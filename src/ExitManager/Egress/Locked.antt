-- ===== src/ExitManager/Egress/Locked.antt =====
-- _connect_worker of vps/exit_manager.py: the country lock of the exits.
use kui_local_multi_exit.Prelude.{
  ℕ, String, ◌==◌, Bool, true, false, ◌≡◌, refl, Option, none, some, arith, Bool-cases, inl, inr,
  subst, false≢true, ◌⊎◌, eq_iff,
}
use kui_local_multi_exit.Prelude.Text.{is_country_code, is_empty}
use kui_local_multi_exit.Prelude.Exec.{
  returned, Meets, Meets-bind, Meets-if, Meets-any, Meets-returned,
}
use kui_local_multi_exit.Json.{Fields}
use kui_local_multi_exit.Models.{ExitSlotSnapshot}
use kui_local_multi_exit.SlotConfig.{is_connectivity_only_slot}
use kui_local_multi_exit.Outside.{Outside, Trace}
use kui_local_multi_exit.ExitManager.{Manager}
use kui_local_multi_exit.ExitManager.Nodes.{is_exit_country}
use kui_local_multi_exit.ExitManager.Health.{is_stale}
use kui_local_multi_exit.ExitManager.Egress.{
  Verdict, admitted, refused, connectivity_verdict, residential_verdict, geo_country,
  residential_country, egress_type, check_status, allows_non_residential, admit_egress, verdict_of,
  apply_verdict,
}

-- A country code that is one of the three, and the slot's unless that is ANY.
abbrev pub IsLocked : String → String → Type 0
IsLocked country actual =
    (is_country_code actual ≡ true)
    × (is_exit_country actual ≡ true)
    × ((country ≡ "ANY") ⊎ (actual ≡ country))

connectivity_admits :
    (country : String) (geo result : Fields)
    → connectivity_verdict country geo ≡ admitted result
    → IsLocked country (geo_country geo)
unfolding connectivity_verdict
connectivity_admits country geo result h =
    ground (arith, eq_iff country "ANY", eq_iff (geo_country geo) country)

-- What a residential check has to say of an address that is admitted.
abbrev pub IsTyped : Bool → Fields → Type 0
IsTyped allow result =
    ((check_status result == "checked") ≡ true)
    × ((egress_type result == "unknown") ≡ false)
    × (((egress_type result == "datacenter") ≡ false) ⊎ (allow ≡ true))

code_is_text : (s : String) → is_country_code s ≡ true → is_empty s ≡ false
unfolding is_country_code
code_is_text s h = elim (Bool-cases (is_empty s)) [
  | inr e ↦ e
  | inl e ↦
      let same = subst (λ x. is_country_code x ≡ true) ((eq_iff s "").0 e) h in
      absurd (false≢true same)
]

residential_admits :
    (country : String) (allow : Bool) (answer result : Fields)
    → residential_verdict country allow answer ≡ admitted result
    → IsLocked country (residential_country answer) × IsTyped allow answer
unfolding residential_verdict
residential_admits country allow answer result h = ground (
  arith,
  eq_iff country "ANY",
  eq_iff (residential_country answer) country,
  code_is_text (residential_country answer),
)

-- The answer that admits an address, by the kind of the slot.
abbrev pub IsVouched :
    Outside
    → (Trace → String → Fields)
    → (Trace → String → Fields)
    → ExitSlotSnapshot
    → String
    → Type 0
IsVouched out geo_of residential_of slot egress =
    (t : Trace) × (((is_connectivity_only_slot slot.id ≡ true)
        × IsLocked slot.country (geo_country (geo_of t egress)))
      ⊎ ((is_connectivity_only_slot slot.id ≡ false)
          × IsLocked slot.country (residential_country (residential_of t egress))
          × IsTyped (allows_non_residential out) (residential_of t egress)))

module _ (out : Outside) (me : ℕ) (geo_of residential_of : Trace → String → Fields)
    (slot : ExitSlotSnapshot) (egress : String) where
  verdict-IsVouched :
      (t : Trace) (result : Fields)
      → verdict_of out me geo_of residential_of slot egress t ≡ admitted result
      → IsVouched out geo_of residential_of slot egress
  verdict-IsVouched t result h = elim (Bool-cases (is_connectivity_only_slot slot.id)) [
    | inl e ↦ (t, inl (e, connectivity_admits slot.country (geo_of t egress) result (rw e at h)))
    | inr e ↦
        let r =
          residential_admits slot.country (allows_non_residential out) (residential_of t egress)
            result (rw e at h) in
        (t, inr (e, r.0, r.1))
  ]

  abbrev IsAdmission : Option Fields → Manager → Type 0
  IsAdmission none m = Unit
  IsAdmission (some result) m =
      (is_empty egress ≡ false) × IsVouched out geo_of residential_of slot egress

  applied :
      (endpoint : String) (t : Trace) (v : Verdict) (m : Manager)
      → is_empty egress ≡ false
      → verdict_of out me geo_of residential_of slot egress t ≡ v
      → Meets IsAdmission (λ s. Unit) (apply_verdict out me geo_of residential_of endpoint v m)
  applied endpoint t (admitted result) m e h = (e, verdict-IsVouched t result h)
  applied endpoint t (refused penalty message) m e h = tt

  admission :
      (generation : ℕ) (endpoint : String) (m : Manager)
      → Meets IsAdmission
          (λ s. Unit)
          (admit_egress out me geo_of residential_of slot generation endpoint egress m)
  unfolding admit_egress
  admission generation endpoint m =
      Meets-bind (is_stale out me slot.id generation) m _ _ _ _
        (Meets-any (is_stale out me slot.id generation m))
        (λ stale s1 q1.
          Meets-if stale _ _ s1 _ _ (λ e. tt)
            (λ e.
              Meets-if (is_empty egress) _ _ s1 _ _ (λ f. tt)
                (λ f.
                  Meets-bind (is_stale out me slot.id generation) s1 _ _ _ _
                    (Meets-any (is_stale out me slot.id generation s1))
                    (λ late s2 q2.
                      Meets-if late _ _ s2 _ _ (λ g. tt)
                        (λ g. applied endpoint s1.trace _ s2 f refl)))))

-- The country lock: an attempt goes on from the address that its tunnel leaves from only if there is
-- one, and an answer for it names a country code that is JP, KR or US, and is the slot's country
-- unless that is ANY. Unless the slot only asks for connectivity, the answer is that of a check that
-- succeeded, knows the kind of the address, and does not call it a datacenter, unless that is allowed.
pub admitted_egress-IsVouched :
    (out : Outside) (me : ℕ) (geo_of residential_of : Trace → String → Fields)
    (slot : ExitSlotSnapshot) (generation : ℕ) (endpoint egress : String) (m : Manager)
    (result : Fields)
    → (admit_egress out me geo_of residential_of slot generation endpoint egress m).0
      ≡ returned (some result)
    → (is_empty egress ≡ false) × IsVouched out geo_of residential_of slot egress
admitted_egress-IsVouched out me geo_of residential_of slot generation endpoint egress m result h =
    Meets-returned (IsAdmission out me geo_of residential_of slot egress) (λ s. Unit)
      (admit_egress out me geo_of residential_of slot generation endpoint egress m) (some result)
      (admission out me geo_of residential_of slot egress generation endpoint m) h

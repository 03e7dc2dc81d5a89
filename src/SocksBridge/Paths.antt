-- ===== src/SocksBridge/Paths.antt =====
-- vps/socks5_bridge.py: each published port leads to its own slot.
use mathlib.Core.List.{append-nil}
use kui_local_multi_exit.Prelude.{
  ℕ, zero, suc, ◌+◌, ◌-◌, ◌≤◌, ◌<◌, String, ◌==◌, Bool, true, false, ◌&&◌, ◌||◌, Option, none, some,
  List, [], ◌∷◌, ◌++◌, map, first, leb, eqb, eqb→eq, ◌≡◌, refl, ◌∙◌, subst, arith, Bool-cases, inl,
  inr, eq_iff, eq_refl,
}
use kui_local_multi_exit.Prelude.Int.{ℤ, pos, negsuc}
use kui_local_multi_exit.Prelude.Exec.{Failure, returned, raised}
use kui_local_multi_exit.SlotConfig.{base_proxy_port, max_slot_count, slot_id, slot_number}
use kui_local_multi_exit.Prelude.Text.{is_empty}
use kui_local_multi_exit.Store.Template.{template_row}
use kui_local_multi_exit.SocksBridge.{
  User, Inbound, Outbound, urltest, socks, direct, Rule, Config, slots_from, port_of, auto_inbound,
  slot_inbound, slot_outbound, slot_rule, build_socks5_bridge_config,
}

-- The number is read back from the name of a slot.
abbrev reads_back : ℕ → Bool
reads_back k = elim (slot_number (slot_id k)) [ none ↦ false | some n ↦ eqb n k ]

abbrev all_read_back : ℕ → ℕ → Bool
all_read_back zero from = true
all_read_back (suc n) from = reads_back from && all_read_back n (suc from)

slots_read_back : all_read_back 34 1 ≡ true
unfolding slot_number slot_id
slots_read_back = refl

read_back_at :
    (n from k : ℕ) → all_read_back n from ≡ true → from ≤ k → k < from + n → reads_back k ≡ true
read_back_at zero from k h l u = absurd (omega arith)
read_back_at (suc n) from k h l u = elim (Bool-cases (eqb from k)) [
  | inl e ↦ subst (λ x. reads_back x ≡ true) (eqb→eq from k e) (ground arith)
  | inr e ↦ read_back_at n (suc from) k (ground arith) (ground arith) (omega arith)
]

slot_number-slot_id : (k : ℕ) → 1 ≤ k → k ≤ 34 → slot_number (slot_id k) ≡ some k
slot_number-slot_id k l u =
    let r = read_back_at 34 1 k slots_read_back l (omega arith) in ground arith

slot_id-distinct :
    (j k : ℕ) → 1 ≤ j → j ≤ 34 → 1 ≤ k → k ≤ 34 → eqb j k ≡ false → (slot_id j == slot_id k) ≡ false
slot_id-distinct j k lj uj lk uk apart = elim (Bool-cases (slot_id j == slot_id k)) [
  | inr e ↦ e
  | inl e ↦
      let same = (eq_iff (slot_id j) (slot_id k)).0 e in
      let a = slot_number-slot_id j lj uj in
      let b = slot_number-slot_id k lk uk in let equal : j ≡ k = cc in absurd (ground arith)
]

-- The first of the slots' entries that a name selects is that slot's own.
first-slot :
    {B : Type 0} (f : String → B) (p : B → Bool) (n from k : ℕ)
    → ((s : String) → p (f s) ≡ (s == slot_id k))
    → 1 ≤ from
    → from + n ≤ 35
    → from ≤ k
    → k < from + n
    → (rest : List B) → first p (map f (slots_from n from) ++ rest) ≡ some (f (slot_id k))
first-slot f p zero from k same one bound l u rest = absurd (omega arith)
first-slot f p (suc n) from k same one bound l u rest = elim (Bool-cases (eqb from k)) [
  | inl e ↦ rw (same (slot_id from), eqb→eq from k e, eq_refl (slot_id k)) refl
  | inr e ↦
      let apart = slot_id-distinct from k one (omega arith) (omega arith) (omega arith) e in
      rw (same (slot_id from), apart)
        (first-slot f p n (suc from) k same (omega arith) (omega arith) (ground arith) (omega arith)
          rest)
]

named_otherwise :
    (name : String) (k : ℕ) → 1 ≤ k → k ≤ 34 → slot_number name ≡ none → (name == slot_id k) ≡ false
named_otherwise name k l u h = elim (Bool-cases (name == slot_id k)) [
  | inr e ↦ e
  | inl e ↦
      let same = (eq_iff name (slot_id k)).0 e in let b = slot_number-slot_id k l u in absurd (cc)
]

abbrev pub tag_of : Outbound → String
tag_of (urltest tag slots) = tag
tag_of (socks tag host port user) = tag
tag_of (direct tag) = tag

-- The inbound with a tag, and the outbound that the rules lead it to.
abbrev pub inbound_of : String → Config → Option Inbound
inbound_of tag c = first (λ i. i.tag == tag) c.inbounds

abbrev pub follow : Option Rule → List Outbound → Option Outbound
follow none outbounds = none
follow (some r) outbounds = first (λ o. tag_of o == r.outbound) outbounds

abbrev pub outbound_of : String → Config → Option Outbound
outbound_of tag c = follow (first (λ r. r.inbound == tag) c.rules) c.outbounds

module _ (n base auto_port : ℕ) (host : String) (public internal : User) where
  abbrev pub built : Config
  built = record {
    inbounds = auto_inbound auto_port public ∷ map (slot_inbound base public) (slots_from n 1);
    outbounds =
        urltest "auto" (slots_from n 1)
        ∷ (map (slot_outbound host base internal) (slots_from n 1) ++ (direct "direct" ∷ []));
    rules = map slot_rule (slots_from n 1);
    final = "auto";
  }

  port-slot : (k : ℕ) → 1 ≤ k → k ≤ 34 → port_of base (slot_id k) ≡ base + k - 1
  port-slot (zero) l u = absurd (omega arith)
  port-slot (suc k) l u = rw (slot_number-slot_id (suc k) l u) refl

  module _ (k : ℕ) (bound : n ≤ 34) (l : 1 ≤ k) (u : k ≤ n) where
    inbound-slot :
        inbound_of (slot_id k) built
        ≡ some (record { tag = slot_id k; listen_port = base + k - 1; users = public ∷ [] })
    unfolding slot_number
    inbound-slot =
        let other = named_otherwise "auto-in" k l (omega arith) refl in
        let found =
          first-slot (slot_inbound base public) (λ i. i.tag == slot_id k) n 1 k (λ s. refl)
            (omega arith) (omega arith) l (omega arith) [] in
        rw other (
          (rw (append-nil (map (slot_inbound base public) (slots_from n 1))) at found)
          ∙ rw (port-slot k l (omega arith)) refl)

    outbound-slot :
        outbound_of (slot_id k) built ≡ some (socks (slot_id k) host (base + k - 1) internal)
    unfolding slot_number
    outbound-slot =
        let other = named_otherwise "auto" k l (omega arith) refl in
        let rule =
          first-slot slot_rule (λ r. r.inbound == slot_id k) n 1 k (λ s. refl) (omega arith)
            (omega arith) l (omega arith) [] in
        let found =
          first-slot (slot_outbound host base internal) (λ o. tag_of o == slot_id k) n 1 k
            (λ s. refl) (omega arith) (omega arith) l (omega arith) (direct "direct" ∷ []) in
        let rule_found = rw (append-nil (map slot_rule (slots_from n 1))) at rule in
        rw (rule_found, other) (found ∙ rw (port-slot k l (omega arith)) refl)

-- Each of the first `n` slots has an inbound and leads to its own outbound.
abbrev pub Publishes : ℕ → ℕ → String → User → User → Config → Type 0
Publishes n base host public internal c =
    (k : ℕ)
    → 1 ≤ k
    → k ≤ n
    → (inbound_of (slot_id k) c
        ≡ some (record { tag = slot_id k; listen_port = base + k - 1; users = public ∷ [] }))
      × (outbound_of (slot_id k) c ≡ some (socks (slot_id k) host (base + k - 1) internal))

bounded : {e : Failure} {c : Config} → raised e ≡ returned c → ⊥
bounded h = absurd (cc)

proxy_port-template :
    (k : ℕ) (country : String) (now : ℕ)
    → ((template_row k country now).id ≡ slot_id (k + 1))
      × ((template_row k country now).proxy_port ≡ base_proxy_port + (k + 1) - 1)
unfolding template_row
proxy_port-template k country now = (refl, omega arith)

-- A configuration that is built is for 1 to 34 slots and with a name and a password, and each slot has
-- an inbound under its name, at the port of the slot with the public credentials, that the rules lead
-- to the gateway's listener of that very slot, with the internal ones; with the default base the port is
-- that of the slot's row in the store's template.
pub bridge-Publishes :
    (count : ℤ) (host : String) (base auto_port : ℕ) (public internal : User) (c : Config)
    → build_socks5_bridge_config count host base auto_port public internal ≡ returned c
    → (n : ℕ) × (count ≡ pos n)
      × (1 ≤ n)
      × (n ≤ 34)
      × Publishes n base host public internal c
      × (is_empty public.username ≡ false)
      × (is_empty public.password ≡ false)
      × ((k : ℕ) (country : String) (now : ℕ)
          → ((template_row k country now).id ≡ slot_id (k + 1))
            × ((template_row k country now).proxy_port ≡ base_proxy_port + (k + 1) - 1))
unfolding build_socks5_bridge_config
bridge-Publishes (negsuc n) host base auto_port public internal c h = absurd (cc)
bridge-Publishes (pos n) host base auto_port public internal c h =
    elim (Bool-cases (leb 1 n && leb n max_slot_count)) [
      | inr e ↦ absurd (bounded (rw e at h))
      | inl e ↦ elim (Bool-cases (is_empty public.username || is_empty public.password)) [
        | inl f ↦ absurd (bounded (rw (e, f) at h))
        | inr f ↦
            let is_built : returned (built n base auto_port host public internal) ≡ returned c =
              rw (e, f) at h in
            let same : built n base auto_port host public internal ≡ c = cc in
            let bound : n ≤ 34 = ground arith in
            (
              n,
              refl,
              ground arith,
              bound,
              subst (Publishes n base host public internal) same (λ k l u. (
                inbound-slot n base auto_port host public internal k bound l u,
                outbound-slot n base auto_port host public internal k bound l u,
              )),
              ground arith,
              ground arith,
              λ k country now. proxy_port-template k country now,
            )
      ]
    ]

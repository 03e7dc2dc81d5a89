-- ===== src/Vpngate/Sanitize/Lines.antt =====
-- sanitize_openvpn_config of vps/vpngate.py: the lines that it writes itself are of one line.
use kui_local_multi_exit.Prelude.{
  ℕ, String, ◌<>◌, ◌==◌, Bool, true, false, ◌&&◌, Option, none, some, List, [], ◌∷◌, ◌≡◌, refl, All,
  eq_iff, sym, leb, arith, subst,
}
use kui_local_multi_exit.Prelude.Text.{decimal, digits, split_on}
use kui_local_multi_exit.Prelude.Text.Lines.{
  OneLine, and_parts, is_one_line, append-OneLine, decimal-OneLine, elem-OneLine, split_on-OneLine,
}
use kui_local_multi_exit.Vpngate.Sanitize.{
  elem, blocks, heading, is_ipv4, start_tag, remote_line, is_octet, four_octets,
}

-- The texts that the code itself puts in are of one line.
pub heading-OneLine : (line : String) → elem line heading ≡ true → OneLine line
unfolding is_one_line
heading-OneLine line e =
    elem-OneLine line heading e (refl, (refl, (refl, (refl, (refl, (refl, tt))))))

pub tag-OneLine : (name : String) → elem name blocks ≡ true → OneLine (start_tag name)
unfolding is_one_line
tag-OneLine name e = append-OneLine "<" (name <> ">") refl (
    append-OneLine name ">"
      (elem-OneLine name blocks e (refl, (refl, (refl, (refl, (refl, (refl, tt))))))) refl)

pub remote-OneLine : (ip : String) (port : ℕ) → OneLine ip → OneLine (remote_line ip port)
unfolding is_one_line
remote-OneLine ip port address = append-OneLine "remote " (ip <> (" " <> decimal port)) refl (
    append-OneLine ip (" " <> decimal port) address
      (append-OneLine " " (decimal port) refl (decimal-OneLine port)))

octet-OneLine : (s : String) → is_octet s ≡ true → OneLine s
octet-OneLine s h = go (digits s) h
  where
    go :
        (o : Option ℕ)
        → (elim o as (λ x. Bool) [ none ↦ false | some n ↦ leb n 255 && s == decimal n ]) ≡ true
        → OneLine s
    go none e = absurd (cc)
    go (some n) e =
        let same = (and_parts (leb n 255) (s == decimal n) e).1 in
        subst OneLine (sym ((eq_iff s (decimal n)).0 same)) (decimal-OneLine n)

octets-OneLine : (pieces : List String) → four_octets pieces ≡ true → All OneLine pieces
octets-OneLine (a ∷ b ∷ c ∷ d ∷ []) h = (
  octet-OneLine a (ground arith),
  (
    octet-OneLine b (ground arith),
    (octet-OneLine c (ground arith), (octet-OneLine d (ground arith), tt)),
  ),
)
octets-OneLine [] h = absurd (cc)
octets-OneLine (a ∷ []) h = absurd (cc)
octets-OneLine (a ∷ b ∷ []) h = absurd (cc)
octets-OneLine (a ∷ b ∷ c ∷ []) h = absurd (cc)
octets-OneLine (a ∷ b ∷ c ∷ d ∷ e ∷ more) h = absurd (cc)

pub ipv4-OneLine : (ip : String) → is_ipv4 ip ≡ true → OneLine ip
unfolding is_ipv4
ipv4-OneLine ip h = split_on-OneLine ip (octets-OneLine (split_on 46 ip) h)

-- ===== src/Vpngate/Sanitize/Clean.antt =====
-- sanitize_openvpn_config of vps/vpngate.py: what a configuration that it returns consists of.
use kui_local_multi_exit.Prelude.{
  ℕ, ◌≤◌, String, ◌<>◌, ◌==◌, true, false, ◌&&◌, Option, none, some, List, [], ◌∷◌, ◌++◌, ◌≡◌, refl,
  any, All, leb, if◌then◌else◌, Bool-cases, Option-cases, inl, inr, arith, subst,
}
use kui_local_multi_exit.Prelude.Int.{ℤ, pos, negsuc}
use kui_local_multi_exit.Prelude.Text.{begins_with, join, lower, split, split_lines, strip}
use kui_local_multi_exit.Prelude.Text.Lines.{OneLine, split_lines-OneLine, strip-OneLine}
use kui_local_multi_exit.Prelude.Exec.{Outcome, returned, raised}
use kui_local_multi_exit.Vpngate.Sanitize.Lines.{
  heading-OneLine, tag-OneLine, remote-OneLine, ipv4-OneLine,
}
use kui_local_multi_exit.Vpngate.Sanitize.{
  elem, allowed, blocked, blocks, heading, is_ipv4, Draft, append_line, end_tag, start_tag,
  remote_line, inside_line, open_block, remote_directive, directive_line, opens_block, is_skipped,
  outside_line, take_line, take_lines, finish_config, sanitize_openvpn_config,
}

-- A line of a configuration, by the block that is open before it and behind it.
pub data CleanLine (ip : String) : Option String → String → Option String → Type 0 where
  of_heading : (line : String) → elem line heading ≡ true → CleanLine ip none line none
  directive :
      (line word : String) (words : List String)
      → split line ≡ word ∷ words
      → elem (lower word) allowed ≡ true
      → CleanLine ip none line none
  remote : (port : ℕ) → 1 ≤ port → port ≤ 65535 → CleanLine ip none (remote_line ip port) none
  start : (name : String) → elem name blocks ≡ true → CleanLine ip none (start_tag name) (some name)
  inside :
      (block line : String)
      → (lower line == end_tag block) ≡ false
      → CleanLine ip (some block) line (some block)
  end :
      (block line : String)
      → (lower line == end_tag block) ≡ true
      → CleanLine ip (some block) line none

pub data CleanLines (ip : String) : List String → Option String → Type 0 where
  empty : CleanLines ip [] none
  then_line :
      {lines : List String} {before after : Option String} {line : String}
      → CleanLines ip lines before
      → CleanLine ip before line after
      → OneLine line
      → CleanLines ip (lines ++ (line ∷ [])) after

abbrev IsClean : String → Draft → Type 0
IsClean ip d = CleanLines ip d.output d.in_block

-- What is returned is clean.
abbrev Keeps : String → Outcome Draft → Type 0
Keeps ip (returned d) = IsClean ip d
Keeps ip (raised e) = Unit

one_more :
    {ip line : String} {before after : Option String} (d : Draft)
    → IsClean ip d
    → d.in_block ≡ before
    → CleanLine ip before line after
    → OneLine line
    → CleanLines ip (d.output ++ (line ∷ [])) after
one_more {ip} d h e c o = then_line (subst (CleanLines ip d.output) e h) c o

module _ (ip : String) (d : Draft) (h : IsClean ip d) (address : OneLine ip) where
  inside-IsClean :
      (block line : String)
      → d.in_block ≡ some block
      → OneLine line
      → IsClean ip (inside_line block line d)
  unfolding inside_line
  inside-IsClean block line e o = elim (Bool-cases (lower line == end_tag block)) [
    | inl c ↦ rw c (one_more d h e (end block line c) o)
    | inr c ↦ rw (c, e) (one_more d h e (inside block line c) o)
  ]

  block-Keeps : (name : String) → d.in_block ≡ none → Keeps ip (open_block name d)
  unfolding open_block
  block-Keeps name e = elim (Bool-cases (elem name blocks)) [
    | inl c ↦ rw c (one_more d h e (start name c) (tag-OneLine name c))
    | inr c ↦ rw c tt
  ]

  remote-Keeps : (port : Option ℤ) → d.in_block ≡ none → Keeps ip (remote_directive ip port d)
  unfolding remote_directive
  remote-Keeps none e = tt
  remote-Keeps (some (negsuc n)) e = tt
  remote-Keeps (some (pos n)) e = elim (Bool-cases (leb 1 n && leb n 65535)) [
    | inl c ↦
        rw (c, e)
          (one_more d h e (remote n (ground arith) (ground arith)) (remote-OneLine ip n address))
    | inr c ↦ rw c tt
  ]

  allowed-Keeps :
      (line word : String) (words : List String)
      → d.in_block ≡ none
      → split line ≡ word ∷ words
      → OneLine line
      → Keeps ip (if elem (lower word) allowed then returned (append_line line d) else returned d)
  allowed-Keeps line word words e s o = elim (Bool-cases (elem (lower word) allowed)) [
    | inl c ↦ rw (c, e) (one_more d h e (directive line word words s c) o)
    | inr c ↦ rw c h
  ]

  directive-Keeps :
      (line : String) (words : List String)
      → d.in_block ≡ none
      → split line ≡ words
      → OneLine line
      → Keeps ip (directive_line ip line words d)
  unfolding directive_line
  directive-Keeps line [] e s o = tt
  directive-Keeps line (word ∷ words) e s o = elim (Bool-cases (elem (lower word) blocked)) [
    | inl c ↦ rw c tt
    | inr c ↦ elim (Bool-cases (lower word == "remote")) [
      | inl r ↦ rw (c, r) (remote-Keeps _ e)
      | inr r ↦ rw (c, r) (allowed-Keeps line word words e s o)
    ]
  ]

  line-Keeps : (original : String) → OneLine original → Keeps ip (take_line ip original d)
  unfolding take_line outside_line
  line-Keeps original whole =
      let one = strip-OneLine original whole in
      elim (Bool-cases (is_skipped (strip original))) [
        | inl c ↦ rw c h
        | inr c ↦ elim (Option-cases d.in_block) [
          | inr (block, e) ↦ rw (c, e) (inside-IsClean block (strip original) e one)
          | inl e ↦ elim (Bool-cases (opens_block (strip original))) [
            | inl o ↦ rw (c, e, o) (block-Keeps _ e)
            | inr o ↦ rw (c, e, o) (directive-Keeps (strip original) _ e refl one)
          ]
        ]
      ]

lines-Keeps :
    (ip : String) (lines : List String) (d : Draft)
    → IsClean ip d
    → OneLine ip
    → All OneLine lines
    → Keeps ip (take_lines ip lines d)
unfolding take_lines
lines-Keeps ip [] d h a o = h
lines-Keeps ip (line ∷ lines) d h a o =
    go (take_line ip line d) (line-Keeps ip d h a line o.0)
      (λ d' k. lines-Keeps ip lines d' k a o.1)
  where
    go :
        (o : Outcome Draft)
        → Keeps ip o
        → ((d' : Draft) → IsClean ip d' → Keeps ip (take_lines ip lines d'))
        → Keeps ip (elim o as (λ x. Outcome Draft) [
          | raised e ↦ raised e
          | returned d' ↦ take_lines ip lines d'
        ])
    go (raised e) k f = tt
    go (returned d') k f = f d' k

heading-IsClean : (ip : String) → CleanLines ip heading none
heading-IsClean ip =
    let add =
      λ (lines : List String) (h : CleanLines ip lines none) (line : String)
          (e : elem line heading ≡ true).
        then_line h (of_heading line e) (heading-OneLine line e) in
    add _
      (add _
        (add _ (add _ (add _ (add [] empty "client" refl) "dev tun" refl) "nobind" refl)
          "persist-key" refl)
        "persist-tun" refl)
      "remote-random" refl

-- The text is that of clean lines, of which one names a remote.
abbrev pub IsConfig : String → String → Type 0
IsConfig ip text =
    (lines : List String) × (text ≡ join "\n" lines <> "\n")
    × CleanLines ip lines none
    × (any (begins_with "remote ") lines ≡ true)

finish-IsConfig :
    (ip text : String) (d : Draft)
    → IsClean ip d
    → finish_config d ≡ returned text
    → IsConfig ip text
unfolding finish_config
finish-IsConfig ip text d h r = elim (Option-cases d.in_block) [
  | inr (block, e) ↦ let never = rw (finish_config, e) at r in absurd (cc)
  | inl e ↦ elim (Bool-cases (any (begins_with "remote ") d.output)) [
    | inl c ↦
        let done = rw (finish_config, e, c) at r in
        (d.output, cc, subst (CleanLines ip d.output) e h, c)
    | inr c ↦ let never = rw (finish_config, e, c) at r in absurd (cc)
  ]
]

finished :
    (ip text : String) (o : Outcome Draft)
    → Keeps ip o
    → (elim o as (λ x. Outcome String) [ raised e ↦ raised e | returned d ↦ finish_config d ])
      ≡ returned text
    → IsConfig ip text
finished ip text (raised e) k r = absurd (cc)
finished ip text (returned d) k r = finish-IsConfig ip text d k r

-- A configuration that sanitize_openvpn_config returns is for an IPv4 address, and what stands between
-- its line feeds are lines that no character breaks, each of which is one of the fixed heading, one
-- whose directive is on the list of the allowed ones, a `remote` for that very address with a port
-- from 1 to 65535, or part of an inline block of one of six kinds; every block that is opened is
-- closed, and a line begins with `remote`.
pub sanitized-IsConfig :
    (raw ip text : String)
    → sanitize_openvpn_config raw ip ≡ returned text
    → IsConfig ip text × (is_ipv4 ip ≡ true)
unfolding sanitize_openvpn_config
sanitized-IsConfig raw ip text r = elim (Bool-cases (is_ipv4 ip)) [
  | inr e ↦ let never = rw (sanitize_openvpn_config, e) at r in absurd (cc)
  | inl e ↦
      let first : Draft = record { output = heading; in_block = none } in
      let lines = split_lines raw in
      (
        finished ip text (take_lines ip lines first)
            (lines-Keeps ip lines first (heading-IsClean ip) (ipv4-OneLine ip e)
              (split_lines-OneLine raw))
            (rw (sanitize_openvpn_config, e) at r),
        e,
      )
]

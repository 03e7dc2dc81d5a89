-- ===== src/Vpngate/Sanitize.antt =====
-- sanitize_openvpn_config of vps/vpngate.py.
pub mod Lines
pub mod Clean
use kui_local_multi_exit.Prelude.{
  ℕ, ◌+◌, ◌*◌, String, ◌<>◌, ◌==◌, Bool, true, false, not, ◌&&◌, ◌||◌, Option, none, some, List, [],
  ◌∷◌, ◌++◌, any, leb, if◌then◌else◌,
}
use kui_local_multi_exit.Prelude.Int.{ℤ, pos, negsuc}
use kui_local_multi_exit.Prelude.Text.{
  begins_with, decimal, digits, int, is_empty, join, lower, split, split_lines, split_on, strip,
  without_ends,
}
use kui_local_multi_exit.Prelude.Url.{ends_with}
use kui_local_multi_exit.Prelude.Exec.{Outcome, returned, raised, value_error}

abbrev pub elem : String → List String → Bool
elem x = any (x ==◌)

abbrev pub allowed : List String
allowed =
    "proto" ∷ "port" ∷ "cipher" ∷ "auth" ∷ "auth-nocache" ∷ "remote-cert-tls" ∷ "verify-x509-name"
    ∷ "tls-version-min" ∷ "tls-cipher" ∷ "compress" ∷ "comp-lzo" ∷ "key-direction" ∷ "reneg-sec"
    ∷ []

abbrev pub blocked : List String
blocked =
    "script-security" ∷ "up" ∷ "down" ∷ "route-up" ∷ "route-pre-down" ∷ "plugin" ∷ "management"
    ∷ "config" ∷ "cd" ∷ "chroot" ∷ "daemon" ∷ "log" ∷ "log-append" ∷ "writepid" ∷ "client-connect"
    ∷ "client-disconnect" ∷ "learn-address" ∷ []

abbrev pub blocks : List String
blocks = "ca" ∷ "cert" ∷ "key" ∷ "tls-auth" ∷ "tls-crypt" ∷ "tls-crypt-v2" ∷ []

abbrev pub heading : List String
heading = "client" ∷ "dev tun" ∷ "nobind" ∷ "persist-key" ∷ "persist-tun" ∷ "remote-random" ∷ []

-- An octet of `ipaddress.IPv4Address`: one to three digits up to 255, with no leading zero.
abbrev pub is_octet : String → Bool
is_octet s = elim (digits s) [ none ↦ false | some n ↦ leb n 255 && s == decimal n ]

abbrev pub four_octets : List String → Bool
four_octets (a ∷ b ∷ c ∷ d ∷ []) = is_octet a && is_octet b && is_octet c && is_octet d
four_octets _ = false

unfoldable pub is_ipv4 : String → Bool
is_ipv4 s = four_octets (split_on 46 s)

-- `output` and `in_block`
pub record Draft : Type 0 where
  pub output : List String
  pub in_block : Option String

abbrev pub append_line : String → Draft → Draft
append_line line d = record d { output = d.output ++ (line ∷ []) }

abbrev pub end_tag : String → String
end_tag block = "</" <> (block <> ">")

abbrev pub start_tag : String → String
start_tag block = "<" <> (block <> ">")

abbrev pub remote_line : String → ℕ → String
remote_line ip port = "remote " <> (ip <> (" " <> decimal port))

-- A line of the block that is open.
unfoldable pub inside_line : String → String → Draft → Draft
inside_line block line d =
    if lower line == end_tag block
    then record (append_line line d) { in_block = none }
    else append_line line d

unfoldable pub open_block : String → Draft → Outcome Draft
open_block name d =
    if not (elem name blocks)
    then raised (value_error ("unsafe OpenVPN inline block: " <> name))
    else returned (record (append_line (start_tag name) d) { in_block = some name })

abbrev port_of : List String → Option ℤ
port_of (host ∷ port ∷ more) = int port
port_of _ = some (pos 1194)

-- The port that a `remote` directive names; `none` where `int` raises ValueError.
unfoldable pub remote_directive : String → Option ℤ → Draft → Outcome Draft
remote_directive ip none d = raised (value_error "invalid literal for int()")
remote_directive ip (some (negsuc n)) d = raised (value_error "invalid OpenVPN remote port")
remote_directive ip (some (pos n)) d =
    if not (leb 1 n && leb n 65535)
    then raised (value_error "invalid OpenVPN remote port")
    else returned (append_line (remote_line ip n) d)

-- A line outside of the blocks that opens none, with its words; a line that is not blank has one.
unfoldable pub directive_line : String → String → List String → Draft → Outcome Draft
directive_line ip line [] d = raised (value_error "list index out of range")
directive_line ip line (word ∷ words) d =
    let directive = lower word in
    if elem directive blocked
    then raised (value_error ("unsafe OpenVPN directive: " <> directive))
    else if directive == "remote"
    then remote_directive ip (port_of words) d
    else if elem directive allowed
    then returned (append_line line d)
    else returned d

abbrev pub opens_block : String → Bool
opens_block line = begins_with "<" line && ends_with ">" line && not (begins_with "</" line)

abbrev pub is_skipped : String → Bool
is_skipped line = is_empty line || begins_with "#" line || begins_with ";" line

unfoldable pub outside_line : String → String → Draft → Outcome Draft
outside_line ip line d =
    if opens_block line
    then open_block (lower (strip (without_ends line))) d
    else directive_line ip line (split line) d

unfoldable pub take_line : String → String → Draft → Outcome Draft
take_line ip original d =
    let line = strip original in
    if is_skipped line then returned d else elim d.in_block [
      | some block ↦ returned (inside_line block line d)
      | none ↦ outside_line ip line d
    ]

unfoldable pub take_lines : String → List String → Draft → Outcome Draft
take_lines ip [] d = returned d
take_lines ip (line ∷ lines) d = elim (take_line ip line d) [
  | raised e ↦ raised e
  | returned d' ↦ take_lines ip lines d'
]

unfoldable pub finish_config : Draft → Outcome String
finish_config d = elim d.in_block [
  | some block ↦ raised (value_error ("unterminated OpenVPN block: " <> block))
  | none ↦
      if not (any (begins_with "remote ") d.output)
      then raised (value_error "OpenVPN profile has no remote")
      else returned (join "\n" d.output <> "\n")
]

unfoldable pub sanitize_openvpn_config : String → String → Outcome String
sanitize_openvpn_config raw expected_ip =
    if not (is_ipv4 expected_ip)
    then raised (value_error expected_ip)
    else elim (take_lines expected_ip (split_lines raw)
        (record { output = heading; in_block = none })) [
          | raised e ↦ raised e
          | returned d ↦ finish_config d
        ]

-- ===== src/Vpngate.antt =====
-- vps/vpngate.py: the requests that decide whether a tunnel works. A request is a `curl` command on
-- the trace.
pub mod Verdicts
pub mod Sanitize
use kui_local_multi_exit.Prelude.{
  ℕ, ◌+◌, ◌-◌, ◌≤◌, ◌<◌, ◌≡◌, refl, String, ◌<>◌, Bool, true, false, not, ◌&&◌, ◌||◌, Option, none,
  some, List, [], ◌∷◌, ◌++◌, ◌==◌, inl, inr, any, keep, map, ltb, leb, eqb, if◌then◌else◌, arith,
  In, ◌⊎◌, ◌↔◌,
}
use kui_local_multi_exit.Prelude.Text.{prefix, strip, is_empty, rstrip}
use kui_local_multi_exit.Prelude.Url.{ends_with, http_status}
use kui_local_multi_exit.Prelude.Int.{ℤ, pos, eqz}
use kui_local_multi_exit.Prelude.Exec.{Exec, returned}
use kui_local_multi_exit.Json.{Fields, field, end, Json, bool, str, num}
use kui_local_multi_exit.Outside.{Outside, Trace, RunResult, ran}

abbrev pub default_stream_url : String
default_stream_url = "https://www.gstatic.com/generate_204"

abbrev pub or_nil : Option ℕ → ℕ
or_nil none = 0
or_nil (some n) = n

-- url.rstrip("/")
unfoldable pub without_slashes : String → String
without_slashes String.[] = ""
without_slashes (String.◌∷◌ c s) =
    let rest = without_slashes s in
    if (String.◌∷◌ c "" == "/") && is_empty rest then "" else String.◌∷◌ c rest

-- 200 <= status < 300 or 400 <= status < 500 and status != 407
abbrev pub status_accepted : ℕ → Bool
status_accepted n = (leb 200 n && ltb n 300) || ((leb 400 n && ltb n 500) && not (eqb n 407))

-- `_probe_accepts`
unfoldable pub probe_accepts : String → String → Bool
probe_accepts url c = elim (http_status c) [
  | none ↦ false
  | some n ↦
      if c == "000"
      then false
      else if ends_with "/generate_204" (without_slashes url)
      then c == "204"
      else status_accepted n
]

-- `_probe_classification`
unfoldable pub probe_classification : String → String → ℤ → String
probe_classification url c returncode =
    if not (eqz returncode (pos 0)) || c == "000"
    then if eqz returncode (pos 28) || c == "000" then "timeout" else "transport_error"
    else elim (http_status c) [
      | none ↦ "invalid_response"
      | some n ↦
          if leb 300 n && ltb n 400
          then "redirect"
          else if eqb n 407
          then "proxy_auth_required"
          else if leb 500 n
          then "server_error"
          else if probe_accepts url c
          then "explicit_response"
          else "unexpected_status"
    ]

pub record Attempt : Type 0 where
  pub url : String
  pub code : String
  pub accepted : Bool
  pub classification : String
  pub elapsed_ms : ℕ
  pub error : String

pub record Probes : Type 0 where
  pub base_ok : Bool
  pub custom_ok : Bool
  pub accepted : Bool
  pub attempts : List Attempt

-- tuple(dict.fromkeys(…)): the first of equal texts stays.
unfoldable pub distinct : List String → List String → List String
distinct seen [] = []
distinct seen (u ∷ us) = elim (any (λ v. v == u) seen) [
  | true ↦ distinct seen us
  | false ↦ u ∷ distinct (u ∷ seen) us
]

unfoldable pub targets : List String → List String
unfolding distinct
targets urls =
    default_stream_url
    ∷ keep (λ u. not (u == default_stream_url))
        (distinct [] (keep (λ u. not (is_empty u)) (map strip urls)))

abbrev doh : List String
doh =
    "--doh-url" ∷ "https://cloudflare-dns.com/dns-query" ∷ "--resolve"
    ∷ "cloudflare-dns.com:443:1.1.1.1" ∷ []

abbrev pub probe_command : String → String → List String
probe_command interface url =
    "curl"
    ∷ "-o"
    ∷ "/dev/null"
    ∷ "-s"
    ∷ "-w"
    ∷ "%{http_code}"
    ∷ "-A"
    ∷ "Mozilla/5.0"
    ∷ "-m"
    ∷ "10"
    ∷ "--location"
    ∷ "--max-redirs"
    ∷ "20"
    ∷ "--interface"
    ∷ interface
    ∷ (doh ++ url ∷ [])

unfoldable pub attempt_of : String → RunResult → ℕ → Attempt
attempt_of url r elapsed =
    let c = strip r.stdout in
    record {
      url = url;
      code = c;
      accepted = eqz r.returncode (pos 0) && probe_accepts url c;
      classification = probe_classification url c r.returncode;
      elapsed_ms = elapsed;
      error = prefix 500 (strip r.stderr);
    }

abbrev verdict : List Attempt → Probes
verdict [] = record { base_ok = false; custom_ok = false; accepted = false; attempts = [] }
verdict (a ∷ more) =
    let custom = any (λ (b : Attempt). b.accepted) more in
    record {
      base_ok = a.accepted;
      custom_ok = custom;
      accepted = a.accepted && custom;
      attempts = a ∷ more;
    }

abbrev pub reference_command : List String
reference_command =
    "curl"
    ∷ "-o"
    ∷ "/dev/null"
    ∷ "-sS"
    ∷ "-w"
    ∷ "%{http_code}"
    ∷ "--noproxy"
    ∷ "*"
    ∷ "--connect-timeout"
    ∷ "3"
    ∷ "--max-time"
    ∷ "5"
    ∷ (doh ++ default_stream_url ∷ [])

abbrev pub reference_result : RunResult → Fields
reference_result r =
    let c = strip r.stdout in
    field "ok" (bool (eqz r.returncode (pos 0) && c == "204")) (
      field "url" (str default_stream_url) (
        field "code" (str c) (
          field "returncode" (num r.returncode)
            (field "error" (str (prefix 500 (strip r.stderr))) end))))

module _ (out : Outside) where
  -- The requests of `probe_targets`, in order. `none` stands for the exception of a `curl` that
  -- cannot be started.
  unfoldable pub probe_each : String → List String → Trace → Option (List Attempt) × Trace
  probe_each interface [] t = (some [], t)
  probe_each interface (u ∷ us) t =
      let c = probe_command interface u in
      let t' = ran c ∷ t in
      let rest = probe_each interface us t' in
      elim (out.curl t c) [
        | inr e ↦ (none, t')
        | inl r ↦ elim rest.0 [
          | none ↦ (none, rest.1)
          | some more ↦ (some (attempt_of u r (out.mono t' - out.mono t) ∷ more), rest.1)
        ]
      ]

  unfoldable pub probe_targets : String → List String → Trace → Option Probes × Trace
  unfolding probe_each
  probe_targets interface urls t =
      let r = probe_each interface (targets urls) t in
      elim r.0 [ none ↦ (none, r.1) | some tried ↦ (some (verdict tried), r.1) ]

  unfoldable pub probe_health_reference : Exec Trace Fields
  probe_health_reference t = elim (out.curl t reference_command) [
    | inr e ↦ (
      returned (
          field "ok" (bool false)
            (field "url" (str default_stream_url) (field "error" (str e.text) end))),
      ran reference_command ∷ t,
    )
    | inl r ↦ (returned (reference_result r), ran reference_command ∷ t)
  ]

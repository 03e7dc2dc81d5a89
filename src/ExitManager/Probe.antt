-- ===== src/ExitManager/Probe.antt =====
-- vps/exit_manager.py, `_probe_target`: one request through a slot's SOCKS listener or its tunnel.
use kui_local_multi_exit.Prelude.{
  ℕ, ◌-◌, String, ◌<>◌, Bool, true, false, not, ◌&&◌, ◌||◌, Option, none, some, List, [], ◌∷◌, ◌++◌,
  ◌==◌, inl, inr, leb, ltb, eqb, if◌then◌else◌,
}
use kui_local_multi_exit.Prelude.Text.{prefix, strip, decimal, is_empty, lower, contains}
use kui_local_multi_exit.Prelude.Url.{quote, replace, ends_with, http_status}
use kui_local_multi_exit.Prelude.Int.{ℤ, pos, negsuc, eqz}
use kui_local_multi_exit.Prelude.Exec.{Exec, returned, raised, pure}
use kui_local_multi_exit.InternalProxy.{load_credentials}
use kui_local_multi_exit.Json.{Fields, field, end, bool, str, num}
use kui_local_multi_exit.Models.{ExitSlotSnapshot}
use kui_local_multi_exit.Outside.{Outside, Trace, ran}

-- The outcome of a request: the four keys that decide, and the rest of the dict.
pub record Probe : Type 0 where
  pub url : String
  pub ok : Bool
  pub transport_ok : Bool
  pub classification : String
  pub details : Fields

unfoldable pub probe_fields : Probe → Fields
probe_fields p = field "url" (str p.url) (
    field "ok" (bool p.ok) (
      field "transport_ok" (bool p.transport_ok)
        (field "classification" (str p.classification) p.details)))

-- What a request came back with: code, return code and text of the error.
pub record Reply : Type 0 where
  pub code : String
  pub returncode : ℤ
  pub error : String

-- re.fullmatch(r"[2-5][0-9]{2}", code) is not None and code != "407"
abbrev pub live_status : Option ℕ → Bool
live_status none = false
live_status (some n) = (leb 200 n && ltb n 600) && not (eqb n 407)

-- 200 <= int(code) < 400
abbrev pub is_success : Option ℕ → Bool
is_success none = false
is_success (some n) = leb 200 n && ltb n 400

abbrev mentions_authentication : String → Bool
mentions_authentication error =
    let e = lower error in
    contains "authentication" e
    || (contains "user was rejected" e || contains "no acceptable auth" e)

abbrev checked_status : Bool → Bool → String
checked_status ok transport =
    if ok then "checked" else if transport then "target_error" else "transport_error"

unfoldable pub transport_ok : Reply → Bool
transport_ok r = eqz r.returncode (pos 0) && live_status (http_status r.code)

unfoldable pub target_ok : String → Reply → Bool
target_ok url r =
    transport_ok r
    && (if ends_with "/generate_204" url then r.code == "204" else is_success (http_status r.code))

-- The dict that a reply becomes.
unfoldable pub probe_of : Bool → String → ℕ → Reply → Probe
probe_of via_socks url elapsed r = record {
  url = url;
  ok = target_ok url r;
  transport_ok = transport_ok r;
  classification =
      if via_socks && (eqz r.returncode (pos 67) || mentions_authentication r.error)
      then "local_configuration"
      else checked_status (target_ok url r) (transport_ok r);
  details = field "code" (str r.code) (
      field "returncode" (num r.returncode)
        (field "elapsed_ms" (num (pos elapsed)) (field "error" (str (prefix 500 r.error)) end)));
}

-- The proxy credentials that must not appear in an error.
abbrev secrets_of : String → String → List String
secrets_of user password = user ∷ password ∷ quote user ∷ quote password ∷ []

unfoldable pub redact : List String → String → String
redact [] error = error
redact (secret ∷ more) error =
    redact more (if is_empty secret then error else replace secret "[redacted]" error)

abbrev socks_route : ExitSlotSnapshot → String → String → List String
socks_route slot user password =
    "-x"
    ∷ ("socks5h://"
        <> (quote user <> (":" <> (quote password <> ("@127.0.0.1:" <> decimal slot.proxy_port)))))
    ∷ "--noproxy"
    ∷ ""
    ∷ []

abbrev tunnel_route : ExitSlotSnapshot → List String
tunnel_route slot =
    "--interface" ∷ slot.tunnel_name ∷ "--noproxy" ∷ "*" ∷ "--doh-url"
    ∷ "https://cloudflare-dns.com/dns-query" ∷ "--resolve" ∷ "cloudflare-dns.com:443:1.1.1.1" ∷ []

abbrev curl_command : List String → String → List String
curl_command route url =
    "curl"
    ∷ "-o"
    ∷ "/dev/null"
    ∷ "-sS"
    ∷ "-w"
    ∷ "%{http_code}"
    ∷ "--connect-timeout"
    ∷ "5"
    ∷ "--max-time"
    ∷ "10"
    ∷ (route ++ url ∷ [])

abbrev unavailable : String → Probe
unavailable url = record {
  url = url;
  ok = false;
  transport_ok = false;
  classification = "local_configuration";
  details = field "error" (str "internal proxy credentials unavailable") end;
}

module _ (out : Outside) where
  -- The command runs; an exception of `run` counts as code 000, and only its type is told.
  abbrev reply : Trace → List String → Reply
  reply t command = elim (out.curl t command) [
    | inr e ↦ record { code = "000"; returncode = negsuc 0; error = e.type_name }
    | inl r ↦ record { code = strip r.stdout; returncode = r.returncode; error = strip r.stderr }
  ]

  abbrev request : Bool → List String → List String → String → Exec Trace Probe
  request via_socks secrets route url t =
      let command = curl_command route url in
      let r = reply t command in
      let t' = ran command ∷ t in
      (
        returned (
            probe_of via_socks url (out.mono t' - out.mono t)
              (record r { error = redact secrets r.error })),
        t',
      )

  unfoldable pub probe_target : ExitSlotSnapshot → String → Bool → Exec Trace Probe
  probe_target slot url false t = request false [] (tunnel_route slot) url t
  probe_target slot url true t = elim (load_credentials out.environ (out.credentials t)) [
    | raised e ↦ pure (unavailable url) t
    | returned (user, password) ↦
        request true (secrets_of user password) (socks_route slot user password) url t
  ]

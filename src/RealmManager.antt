-- ===== src/RealmManager.antt =====
-- vps/realm_manager.py: the relay process of the host. The setting in the store is what its text parses
-- to, and a process is a number; one that is killed ends within three seconds.
pub mod Processes
use Prim.Native.Char.{Char, code}
use kui_local_multi_exit.Prelude.{
  ℕ, String, ◌<>◌, ◌==◌, Bool, true, false, not, ◌&&◌, ◌||◌, Option, none, some, List, [], ◌∷◌,
  ◌++◌, any, leb, eqb, ◌⊎◌, inl, inr, if◌then◌else◌,
}
use kui_local_multi_exit.Prelude.Text.{after_prefix, begins_with, digits, is_empty, is_space, strip}
use kui_local_multi_exit.Prelude.Exec.{
  Exec, Outcome, returned, raised, pure, raise, gets, modify, value_error, runtime_error, ◌>>=◌,
  ◌>>◌,
}
use kui_local_multi_exit.Json.{
  Fields, Json, end, field, str, bool, obj, dumps, lookup, lookup_true, truthy,
}

-- The characters of `s` up to the first one that `p` does not take, and the rest.
unfoldable pub span : (Char → Bool) → String → String × String
span p String.[] = ("", "")
span p (String.◌∷◌ c s) =
    let r = span p s in if p c then (String.◌∷◌ c r.0, r.1) else ("", String.◌∷◌ c s)

-- [0-9A-Fa-f:] and [^\s:]
abbrev is_hex_or_colon : Char → Bool
is_hex_or_colon c =
    (leb 48 (code c) && leb (code c) 58)
    || (leb 65 (code c) && leb (code c) 70)
    || (leb 97 (code c) && leb (code c) 102)

abbrev is_host_char : Char → Bool
is_host_char c = not (is_space c) && not (eqb (code c) 58)

-- The two groups of a pattern `(host)…(\d+)`, whose host is not empty.
abbrev port_behind : String → String × String → Option (String × ℕ)
port_behind separator (host, rest) =
    if is_empty host
    then none
    else elim (after_prefix separator rest) as (λ x. Option (String × ℕ)) [
      | none ↦ none
      | some s ↦ elim (digits s) [ none ↦ none | some port ↦ some (host, port) ]
    ]

unfoldable pub match_endpoint : String → Option (String × ℕ)
match_endpoint text =
    if begins_with "[" text
    then elim (after_prefix "[" text) [
      | none ↦ none
      | some s ↦ port_behind "]:" (span is_hex_or_colon s)
    ]
    else port_behind ":" (span is_host_char text)

abbrev pub is_local : String → Bool
is_local host = host == "0.0.0.0" || (host == "127.0.0.1" || (host == "::" || host == "::1"))

-- str(value or "").strip(); a value that is no text stands in its JSON form
abbrev text_of : Option Json → String
text_of none = ""
text_of (some (str s)) = strip s
text_of (some v) = if truthy v then dumps v else ""

-- `_endpoint`
unfoldable pub endpoint : Bool → Option Json → Outcome String
endpoint listen value =
    let text = text_of value in
    elim (match_endpoint text) [
      | none ↦ raised (value_error "endpoint must be host:port")
      | some (host, port) ↦
          if not (leb 1 port && leb port 65535)
          then raised (value_error "endpoint port must be between 1 and 65535")
          else if listen && not (is_local host)
          then raised (value_error "listen endpoint must bind a local address")
          else returned text
    ]

pub record RealmConfig : Type 0 where
  pub listen : String
  pub remote : String
  pub use_udp : Bool

pub data Act : Type 0 where
  spawned : List String → ℕ → Act
  terminated killed : ℕ → Act
  time_passed : Act

-- What the system answers: whether a process still runs, whether it ends within three seconds of being
-- asked to, and what spawning a command gives, a process or an error.
pub record System : Type 0 where
  pub runs : List Act → ℕ → Bool
  pub ends : List Act → ℕ → Bool
  pub spawn : List Act → List String → ℕ ⊎ String

-- The manager, with the setting and with what it has done, newest first.
pub record Realm : Type 0 where
  pub binary : String
  pub setting : Option Json
  pub process : Option ℕ
  pub state : String
  pub error : String
  pub acts : List Act

pub record Status : Type 0 where
  pub config : RealmConfig
  pub available : Bool
  pub running : Bool
  pub state : String
  pub error : String
  pub binary : String

abbrev no_config : RealmConfig
no_config = record { listen = ""; remote = ""; use_udp = false }

-- str(value.get(k, ""))
abbrev text_at : String → Fields → String
text_at k d = elim (lookup k d) [ none ↦ "" | some (str s) ↦ s | some v ↦ dumps v ]

-- `_config`
abbrev config_of : Option Json → RealmConfig
config_of (some (obj d)) = record {
  listen = text_at "listen" d;
  remote = text_at "remote" d;
  use_udp = lookup_true "use_udp" d;
}
config_of _ = no_config

unfoldable pub config : Realm → RealmConfig
config r = config_of r.setting

abbrev or_raise : Outcome String → Exec Realm String
or_raise (returned s) = pure s
or_raise (raised e) = raise e

unfoldable pub configure : Fields → Exec Realm RealmConfig
configure payload = do
  listen ← or_raise (endpoint true (lookup "listen" payload))
  remote ← or_raise (endpoint false (lookup "remote" payload))
  let use_udp = lookup_true "use_udp" payload
  modify (λ r. record r {
    setting = some (
        obj (
          field "listen" (str listen)
            (field "remote" (str remote) (field "use_udp" (bool use_udp) end))));
  })
  pure (record { listen = listen; remote = remote; use_udp = use_udp })

abbrev is_running : System → Realm → Bool
is_running sys r = elim r.process [ none ↦ false | some p ↦ sys.runs r.acts p ]

unfoldable pub status : System → Realm → Status
status sys r =
    let running = is_running sys r in
    let available = not (is_empty r.binary) in
    record {
      config = config r;
      available = available;
      running = running;
      state = if not available then "unavailable" else if running then "running" else r.state;
      error = r.error;
      binary = r.binary;
    }

abbrev command : Realm → List String
command r =
    let c = config r in
    (r.binary ∷ (if c.use_udp then "-u" ∷ [] else [])) ++ ("-l" ∷ c.listen ∷ "-r" ∷ c.remote ∷ [])

abbrev fail : String → String → Exec Realm Unit
fail state message = do
  modify (λ r. record r { state = state; error = message })
  raise (runtime_error message)

-- The process that was spawned, which may have ended at once.
abbrev adopt : System → List String → ℕ → Exec Realm Unit
adopt sys cmd p = do
  modify (λ r. record r { process = some p; acts = spawned cmd p ∷ r.acts })
  runs ← gets (λ r. sys.runs r.acts p)
  if not runs
      then (do
        modify (λ r. record r { process = none })
        fail "failed" "realm process exited during startup")
      else modify (λ r. record r { state = "running"; error = "" })

abbrev spawn_or_fail : System → List String → ℕ ⊎ String → Exec Realm Unit
spawn_or_fail sys cmd (inl p) = adopt sys cmd p
spawn_or_fail sys cmd (inr text) = do
  modify (λ r. record r { process = none; state = "failed"; error = text })
  raise (runtime_error ("failed to start Realm: " <> text))

-- What `start` does before it reports, from the manager as it finds it.
unfoldable pub launch : System → Realm → Exec Realm Unit
launch sys r =
    let c = config r in
    if is_running sys r
    then pure tt
    else if is_empty c.listen || is_empty c.remote
    then raise (value_error "Realm listen and remote endpoints are required")
    else if is_empty r.binary
    then fail "unavailable" "realm binary is not installed"
    else spawn_or_fail sys (command r) (sys.spawn r.acts (command r))

unfoldable pub start : System → Exec Realm Status
start sys r = (launch sys r >> gets (status sys)) r

abbrev end_process : System → ℕ → Exec Realm Unit
end_process sys p = do
  ends ← gets (λ r. sys.ends r.acts p)
  modify (λ r. record r { acts = terminated p ∷ r.acts })
  if ends then pure tt else modify (λ r. record r { acts = killed p ∷ r.acts })

abbrev end_running : System → Option ℕ → Exec Realm Unit
end_running sys none = pure tt
end_running sys (some p) = do
  runs ← gets (λ r. sys.runs r.acts p)
  if runs then end_process sys p else pure tt

unfoldable pub stop : System → Exec Realm Status
stop sys = do
  p ← gets (λ r. r.process)
  modify (λ r. record r { process = none })
  end_running sys p
  modify (λ r. record r { state = "stopped"; error = "" })
  gets (status sys)

unfoldable pub restart : System → Exec Realm Status
restart sys = stop sys >> start sys

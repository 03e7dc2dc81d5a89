-- ===== src/InternalProxy.antt =====
-- vps/internal_proxy.py: the gateway's own SOCKS credentials, from the environment or from a file.
use kui_local_multi_exit.Prelude.{
  String, Bool, false, not, ◌||◌, Option, none, some, ◌≡◌, if◌then◌else◌, arith,
}
use kui_local_multi_exit.Prelude.Dict
use kui_local_multi_exit.Prelude.Dict.{Dict}
use kui_local_multi_exit.Prelude.Text.{strip, is_empty}
use kui_local_multi_exit.Prelude.Exec.{Outcome, returned, raised, value_error, runtime_error, Exec}

-- A credentials file that parses: its two fields are texts where they are there.
pub record CredentialsFile : Type 0 where
  pub username : Option String
  pub password : Option String

abbrev pub or_text : String → Option String → String
or_text d none = d
or_text d (some s) = s

abbrev is_same : Bool → Bool → Bool
is_same a b = if a then b else not b

-- `_configured_credentials`
unfoldable pub configured_credentials : Dict String → Outcome (Option (String × String))
configured_credentials env =
    let user = strip (or_text "" (Dict.get "KUI_INTERNAL_PROXY_USER" env)) in
    let password = or_text "" (Dict.get "KUI_INTERNAL_PROXY_PASSWORD" env) in
    if not (is_same (is_empty user) (is_empty password))
    then raised
        (value_error "KUI_INTERNAL_PROXY_USER and KUI_INTERNAL_PROXY_PASSWORD must be set together")
    else returned (if is_empty user then none else some (user, password))

-- The file's part of `load_internal_proxy_credentials`; `none` for a file that is missing or does
-- not parse.
unfoldable pub file_credentials : Option CredentialsFile → Outcome (String × String)
file_credentials none = raised (runtime_error "internal proxy credentials are unavailable")
file_credentials (some f) =
    let username = or_text "" f.username in
    let password = or_text "" f.password in
    if is_empty username || is_empty password
    then raised (runtime_error "internal proxy credentials are invalid")
    else returned (username, password)

unfoldable pub load_credentials : Dict String → Option CredentialsFile → Outcome (String × String)
load_credentials env file = elim (configured_credentials env) [
  | raised e ↦ raised e
  | returned (some c) ↦ returned c
  | returned none ↦ file_credentials file
]

-- `load_or_create_internal_proxy_credentials`, with the file it leaves; `token` is what
-- `secrets.token_urlsafe(32)` draws, and the disk accepts the write.
unfoldable pub load_or_create :
    Dict String → String → Exec (Option CredentialsFile) (String × String)
load_or_create env token file = elim (configured_credentials env) [
  | raised e ↦ (raised e, file)
  | returned (some c) ↦ (returned c, file)
  | returned none ↦ elim (load_credentials env file) [
    | returned c ↦ (returned c, file)
    | raised e ↦ (
      returned ("kui-gateway", token),
      some (record { username = some "kui-gateway"; password = some token }),
    )
  ]
]

-- What `load_or_create` returns, a later load returns too, from the file that it left, and a second
-- call returns it again, whatever token that one draws. The token that is drawn is not empty.
pub created_credentials_stay :
    (env : Dict String) (token later : String) (file : Option CredentialsFile)
    → is_empty token ≡ false
    → (load_credentials env (load_or_create env token file).1 ≡ (load_or_create env token file).0)
      × (load_or_create env later (load_or_create env token file).1 ≡ load_or_create env token file)
unfolding load_or_create load_credentials file_credentials
created_credentials_stay env token later file h = (ground arith, ground arith)

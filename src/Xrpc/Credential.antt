-- ===== src/Xrpc/Credential.antt =====
-- src/xrpc/auth.rs: what a request offers in its Authorization header, and the callers that a method may
-- ask for. Base64 is third-party code; a header value that is no text comes as `some none`.
pub mod Callers
use manapds.Prelude.{
  List, Option, Str, if◌then◌else◌, map, none, not, some, ℕ, ◌++◌, ◌+◌, ◌-◌, ◌||◌,
}
use manapds.Prelude.Bytes.{codes, contains, str_eq, split_once, is_utf8, is_ascii_lowercase}
use manapds.Prelude.Int.{ℤ}
use manapds.Prelude.Result.{ok_or, Result, ok, err, ◌>>=◌, ◌>>◌, fail_if}
use manapds.Crypto.{same}
use manapds.Xrpc.Status.{authentication_required}
use manapds.Xrpc.Failure
use manapds.Xrpc.Failure.{Error, called, invalid_request}
use manapds.Xrpc.Auth.{
  Coding, Tokens, Scope, Expired, Access, Refresh, standard, full, refuse, allow, verify_access,
  verify_refresh,
}

pub data Credential : Type 0 where
  bearer : Str → Credential
  dpop : Str → Credential
  basic : Str → Str → Credential

abbrev pub upper : ℕ → ℕ
upper c = if is_ascii_lowercase c then c - 32 else c

unfoldable pub malformed_header : Error
malformed_header =
    called (codes "InvalidToken") (invalid_request (codes "Malformed authorization header"))

unfoldable pub unsupported : Str → Error
unsupported scheme =
    called (codes "InvalidToken")
      (invalid_request (codes "Unsupported authorization type: " ++ scheme))

abbrev pub as_basic : Option (Str × Str) → Option Credential
as_basic none = none
as_basic (some (username, password)) = some (basic username password)

-- The free function `basic`, with the decoding of base64.
unfoldable pub read_basic : (Str → Option Str) → Str → Option Credential
read_basic decode token = elim (decode token) [
  | none ↦ none
  | some bytes ↦ if is_utf8 bytes then as_basic (split_once b':' bytes) else none
]

unfoldable pub credential : (Str → Option Str) → Str → Str → Result Error (Option Credential)
unfolding read_basic unsupported
credential decode scheme token =
    let named = map upper scheme in
    if str_eq named (codes "BEARER")
    then ok (some (bearer token))
    else if str_eq named (codes "DPOP")
    then ok (some (dpop token))
    else if str_eq named (codes "BASIC")
    then ok (read_basic decode token)
    else err (unsupported scheme)

-- `Authorization::parse`
unfoldable pub parse : (Str → Option Str) → Option Str → Result Error (Option Credential)
unfolding credential malformed_header
parse decode none = ok none
parse decode (some header) = do
  (scheme, token) ← ok_or (split_once b' ' header) malformed_header
  fail_if (contains b' ' token) malformed_header
  credential decode scheme token

-- `Authorization::from_headers`
unfoldable pub from_headers :
    (Str → Option Str) → Option (Option Str) → Result Error (Option Credential)
unfolding parse malformed_header
from_headers decode none = parse decode none
from_headers decode (some none) = err malformed_header
from_headers decode (some (some header)) = parse decode (some header)

-- `Authorization::bearer`
abbrev pub bearer_of : Option Credential → Option Str
bearer_of (some (bearer token)) = some token
bearer_of _ = none

unfoldable pub auth_missing : Error
auth_missing = called (codes "AuthMissing") (Failure.new authentication_required)

module _ {J : Type 0} (decode : Str → Option Str) (coding : Coding J) (tokens : Tokens)
    (now : ℤ) where
  -- The free functions `access` and `refresh`.
  unfoldable pub access_of : Option (Option Str) → List Scope → Result Error Access
  unfolding from_headers auth_missing
  access_of header scopes = do
    offered ← from_headers decode header
    token ← ok_or (bearer_of offered) auth_missing
    verify_access coding tokens now token scopes

  unfoldable pub refresh_of : Option (Option Str) → Expired → Result Error Refresh
  unfolding from_headers auth_missing
  refresh_of header expired = do
    offered ← from_headers decode header
    token ← ok_or (bearer_of offered) auth_missing
    verify_refresh coding tokens now token expired

  -- The callers `Access`, `Full`, `Refresh` and `Closing`.
  unfoldable pub any_session : Option (Option Str) → Result Error Access
  unfolding access_of
  any_session header = access_of header standard

  unfoldable pub full_session : Option (Option Str) → Result Error Access
  unfolding access_of
  full_session header = access_of header full

  unfoldable pub exchanging : Option (Option Str) → Result Error Refresh
  unfolding refresh_of
  exchanging header = refresh_of header refuse

  unfoldable pub closing : Option (Option Str) → Result Error Refresh
  unfolding refresh_of
  closing header = refresh_of header allow

abbrev pub administrator : Str
administrator = codes "admin"

abbrev pub check_admin : Str → Option Credential → Result Error (Unit {0})
check_admin admin_password (some (basic username password)) =
    if not (str_eq username administrator) || not (same password admin_password)
    then err (Failure.new authentication_required)
    else ok tt
check_admin admin_password _ = err auth_missing

-- The caller `Admin`.
unfoldable pub admin : (Str → Option Str) → Str → Option (Option Str) → Result Error (Unit {0})
unfolding from_headers auth_missing
admin decode admin_password header = do
  offered ← from_headers decode header
  check_admin admin_password offered

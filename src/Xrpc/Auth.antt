-- ===== src/Xrpc/Auth.antt =====
-- src/xrpc/auth.rs: session tokens, minted and read back, and the scopes that they carry. Base64, the
-- JSON of a token's parts and the MAC are third-party code, and arguments. A time is in seconds.
pub mod Token
pub mod Session
mod Tests
use manapds.Prelude.{
  Bool, List, Option, Str, [], false, if◌then◌else◌, none, not, some, true, ℕ, ◌&&◌, ◌*◌, ◌++◌, ◌+◌,
  ◌==◌, ◌||◌, ◌∷◌,
}
use manapds.Prelude.Bytes.{codes, contains, str_eq, split_once}
use manapds.Prelude.Int.{ℤ, pos, ◌+ℤ◌, leb_ℤ}
use manapds.Prelude.Result.{ok_or, Result, ok, err, ◌>>=◌, ◌>>◌, fail_if}
use manapds.Syntax
use manapds.Syntax.Did
use manapds.Xrpc.Failure
use manapds.Xrpc.Failure.{Error, called, invalid_request, auth_required}

abbrev pub access_lifetime : ℤ
access_lifetime = pos (120 * 60)

abbrev pub refresh_lifetime : ℤ
refresh_lifetime = pos (90 * 24 * 3600)

pub data Scope : Type 0 where
  access : Scope
  refresh : Scope
  app_password : Scope
  privileged_app_password : Scope
  signup_queued : Scope
  taken_down : Scope

abbrev pub full : List Scope
full = access ∷ []

abbrev pub privileged : List Scope
privileged = access ∷ privileged_app_password ∷ []

abbrev pub standard : List Scope
standard = access ∷ privileged_app_password ∷ app_password ∷ []

-- `Scope::as_str`
unfoldable pub as_str : Scope → Str
as_str access = codes "com.atproto.access"
as_str refresh = codes "com.atproto.refresh"
as_str app_password = codes "com.atproto.appPass"
as_str privileged_app_password = codes "com.atproto.appPassPrivileged"
as_str signup_queued = codes "com.atproto.signupQueued"
as_str taken_down = codes "com.atproto.takendown"

-- `Scope::from_str`
unfoldable pub from_str : Str → Option Scope
from_str value =
    if str_eq value (codes "com.atproto.access")
    then some access
    else if str_eq value (codes "com.atproto.refresh")
    then some refresh
    else if str_eq value (codes "com.atproto.appPass")
    then some app_password
    else if str_eq value (codes "com.atproto.appPassPrivileged")
    then some privileged_app_password
    else if str_eq value (codes "com.atproto.signupQueued")
    then some signup_queued
    else if str_eq value (codes "com.atproto.takendown")
    then some taken_down
    else none

-- `==` on scopes
abbrev pub scope_eq : Scope → Scope → Bool
scope_eq access access = true
scope_eq refresh refresh = true
scope_eq app_password app_password = true
scope_eq privileged_app_password privileged_app_password = true
scope_eq signup_queued signup_queued = true
scope_eq taken_down taken_down = true
scope_eq _ _ = false

unfoldable pub is_among : List Scope → Scope → Bool
is_among [] scope = false
is_among (s ∷ scopes) scope = scope_eq s scope || is_among scopes scope

-- Whether a refresh token past its expiry is still read.
pub data Expired : Type 0 where
  refuse : Expired
  allow : Expired

pub record Access : Type 0 where
  pub did : Did.Did
  pub scope : Scope

pub record Refresh : Type 0 where
  pub did : Did.Did
  pub id : Str

pub record Tokens : Type 0 where
  pub key : Str
  pub audience : Str

pub record Header : Type 0 where
  pub alg : Str
  pub typ : Str

-- `J` stands for a JSON value.
pub record Claims (J : Type 0) : Type 0 where
  pub scope : Str
  pub sub : Str
  pub aud : Str
  pub iat : ℤ
  pub exp : ℤ
  pub jti : Option Str
  pub lxm : Option J
  pub cnf : Option J

-- What third-party code does for a token.
pub record Coding (J : Type 0) : Type 0 where
  pub encode : Str → Str
  pub decode : Str → Option Str
  pub write_header : Header → Str
  pub read_header : Str → Option Header
  pub write_claims : Claims J → Str
  pub read_claims : Str → Option (Claims J)
  pub mac : Str → Str → Str
  pub verify_slice : Str → Str → Str → Bool

unfoldable pub unverifiable : Error
unverifiable = called (codes "InvalidToken") (invalid_request (codes "Token could not be verified"))

unfoldable pub malformed : Error
malformed = called (codes "InvalidToken") (invalid_request (codes "Malformed token"))

unfoldable pub token_expired : Error
token_expired = called (codes "ExpiredToken") (invalid_request (codes "Token has expired"))

unfoldable pub bad_scope : Error
bad_scope = called (codes "InvalidToken") (invalid_request (codes "Bad token scope"))

unfoldable pub missing_id : Error
missing_id =
    called (codes "MissingTokenId") (auth_required (codes "Unexpected missing refresh token id"))

-- `rsplit_once`
abbrev pub rsplit_once : ℕ → Str → Option (Str × Str)
rsplit_once sep [] = none
rsplit_once sep (c ∷ s) = elim (rsplit_once sep s) [
  | some (a, b) ↦ some (c ∷ a, b)
  | none ↦ if c == sep then some ([], s) else none
]

abbrev pub is_some {ℓ} : {A : Type ℓ} → Option A → Bool
is_some none = false
is_some (some _) = true

abbrev pub is_among_read : List Scope → Option Scope → Bool
is_among_read scopes none = false
is_among_read scopes (some scope) = is_among scopes scope

-- Whether a scope in a token is one of those asked for.
unfoldable pub reaches : List Scope → Str → Bool
unfolding is_among from_str
reaches scopes text = is_among_read scopes (from_str text)

abbrev is_refuse : Expired → Bool
is_refuse refuse = true
is_refuse allow = false

abbrev pub or_malformed {ℓ} : {A : Type ℓ} → Result Syntax.Error A → Result Error A
or_malformed (ok a) = ok a
or_malformed (err _) = err malformed

-- The free function `did`.
unfoldable pub subject : Str → Result Error Did.Did
subject sub = or_malformed (Did.parse sub)

module _ {J : Type 0} (coding : Coding J) where
  -- The free function `decode`, on a header and on claims.
  unfoldable pub decode_part {ℓ} : {A : Type ℓ} → (Str → Option A) → Str → Result Error A
  decode_part read part = do
    bytes ← ok_or (coding.decode part) unverifiable
    ok_or (read bytes) malformed

  -- `Tokens::mint`, at the time `now`
  unfoldable pub mint : Tokens → ℤ → Str → Did.Did → Scope → Option Str → ℤ → Str
  mint tokens now typ did scope jti lifetime =
      let claims : Claims J = record {
        scope = as_str scope;
        sub = did.text;
        aud = tokens.audience;
        iat = now;
        exp = now +ℤ lifetime;
        jti = jti;
        lxm = none;
        cnf = none;
      } in
      let header : Header = record { alg = codes "HS256"; typ = typ } in
      let signed =
        coding.encode (coding.write_header header)
        ++ (b'.' ∷ coding.encode (coding.write_claims claims)) in
      signed ++ (b'.' ∷ coding.encode (coding.mac tokens.key signed))

  unfoldable pub access_for : Tokens → ℤ → Did.Did → Scope → ℤ → Str
  unfolding mint
  access_for tokens now did scope lifetime =
      mint tokens now (codes "at+jwt") did scope none lifetime

  -- `Tokens::access`
  unfoldable pub access_token : Tokens → ℤ → Did.Did → Scope → Str
  unfolding access_for
  access_token tokens now did scope = access_for tokens now did scope access_lifetime

  -- `Tokens::refresh`
  unfoldable pub refresh_token : Tokens → ℤ → Did.Did → Str → Str
  unfolding mint
  refresh_token tokens now did id =
      mint tokens now (codes "refresh+jwt") did refresh (some id) refresh_lifetime

  -- `Tokens::verify`, in its two halves: the three parts and the signature, and then the claims.
  unfoldable pub signed_claims : Tokens → Str → Str → Result Error (Claims J)
  unfolding decode_part
  signed_claims tokens typ token = do
    (signed, signature) ← ok_or (rsplit_once b'.' token) unverifiable
    (header, payload) ← ok_or (split_once b'.' signed) unverifiable
    fail_if (contains b'.' payload) unverifiable
    header ← decode_part coding.read_header header
    fail_if (not (str_eq header.alg (codes "HS256")) || not (str_eq header.typ typ)) unverifiable
    signature ← ok_or (coding.decode signature) unverifiable
    fail_if (not (coding.verify_slice tokens.key signed signature)) unverifiable
    decode_part coding.read_claims payload

  unfoldable pub check_claims :
      Tokens → ℤ → List Scope → Expired → Claims J → Result Error (Claims J)
  unfolding reaches
  check_claims tokens now scopes expired claims = do
    fail_if (is_refuse expired && leb_ℤ claims.exp now) token_expired
    fail_if (not (str_eq claims.aud tokens.audience)) unverifiable
    fail_if (is_some claims.lxm || is_some claims.cnf) malformed
    fail_if (not (reaches scopes claims.scope)) bad_scope
    ok claims

  unfoldable pub verify : Tokens → ℤ → Str → Str → List Scope → Expired → Result Error (Claims J)
  unfolding signed_claims check_claims
  verify tokens now token typ scopes expired = do
    claims ← signed_claims tokens typ token
    check_claims tokens now scopes expired claims

  unfoldable pub verify_access : Tokens → ℤ → Str → List Scope → Result Error Access
  unfolding verify subject from_str
  verify_access tokens now token scopes = do
    claims ← verify tokens now token (codes "at+jwt") scopes refuse
    did ← subject claims.sub
    scope ← ok_or (from_str claims.scope) malformed
    ok (record { did = did; scope = scope })

  unfoldable pub verify_refresh : Tokens → ℤ → Str → Expired → Result Error Refresh
  unfolding verify subject
  verify_refresh tokens now token expired = do
    claims ← verify tokens now token (codes "refresh+jwt") (refresh ∷ []) expired
    id ← ok_or claims.jti missing_id
    did ← subject claims.sub
    ok (record { did = did; id = id })

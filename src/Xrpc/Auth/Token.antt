-- ===== src/Xrpc/Auth/Token.antt =====
-- Tokens that this server mints, read back: what comes of them, and what does not.
use manapds.Prelude.{
  Bool, Bool-cases, List, Option, Str, [], ap, arith, false, if◌then◌else◌, inl, inr, none, not,
  refl, some, true, ℕ, ◌&&◌, ◌++◌, ◌==◌, ◌∷◌, ◌≡◌,
}
use manapds.Prelude.Bytes.{codes, contains, str_eq, split_once}
use manapds.Prelude.Eq.{str_eq_refl}
use manapds.Prelude.Int.{ℤ, ◌+ℤ◌, leb_ℤ}
use manapds.Prelude.Result.{Result, ok, err, ◌>>=◌, fail_if}
use manapds.Syntax.Did
use manapds.Xrpc.Failure.{Error}
use manapds.Xrpc.Auth.{
  Coding, Header, Claims, Tokens, Scope, Expired, mint, access_for, refresh_token, verify,
  signed_claims, check_claims, verify_access, verify_refresh, decode_part, subject, or_malformed,
  from_str, as_str, reaches, is_among_read, is_among, rsplit_once, unverifiable, token_expired,
  bad_scope, refuse, refresh, refresh_lifetime, access, app_password, privileged_app_password,
  signup_queued, taken_down, is_refuse,
}

-- What the code relies on of base64, of JSON and of the MAC.
pub record IsCoding {J : Type 0} (coding : Coding J) : Type 0 where
  pub decode-encode : (bytes : Str) → coding.decode (coding.encode bytes) ≡ some bytes
  pub encode_no_dot : (bytes : Str) → contains b'.' (coding.encode bytes) ≡ false
  pub read-write_header : (h : Header) → coding.read_header (coding.write_header h) ≡ some h
  pub read-write_claims : (c : Claims J) → coding.read_claims (coding.write_claims c) ≡ some c
  pub verify-mac :
      (key message : Str) → coding.verify_slice key message (coding.mac key message) ≡ true

rsplit_once-none : (sep : ℕ) (s : Str) → contains sep s ≡ false → rsplit_once sep s ≡ none
rsplit_once-none sep [] h = refl
rsplit_once-none sep (c ∷ s) h =
    let here : (c == sep) ≡ false = ground arith in
    let later : contains sep s ≡ false = ground arith in
    rw (rsplit_once-none sep s later, here) refl

rsplit_once-append :
    (sep : ℕ) (a b : Str) → contains sep b ≡ false → rsplit_once sep (a ++ (sep ∷ b)) ≡ some (a, b)
rsplit_once-append sep [] b h =
    let same : (sep == sep) ≡ true = ground arith in rw (rsplit_once-none sep b h, same) refl
rsplit_once-append sep (c ∷ a) b h = rw (rsplit_once-append sep a b h) refl

split_once-append :
    (sep : ℕ) (a b : Str) → contains sep a ≡ false → split_once sep (a ++ (sep ∷ b)) ≡ some (a, b)
split_once-append sep [] b h = let same : (sep == sep) ≡ true = ground arith in rw same refl
split_once-append sep (c ∷ a) b h =
    let here : (c == sep) ≡ false = ground arith in
    let later : contains sep a ≡ false = ground arith in
    rw (here, split_once-append sep a b later) refl

pub from_str-as_str : (scope : Scope) → from_str (as_str scope) ≡ some scope
unfolding from_str as_str
from_str-as_str access = refl
from_str-as_str refresh = refl
from_str-as_str app_password = refl
from_str-as_str privileged_app_password = refl
from_str-as_str signup_queued = refl
from_str-as_str taken_down = refl

reaches-as_str :
    (scopes : List Scope) (scope : Scope) → reaches scopes (as_str scope) ≡ is_among scopes scope
unfolding reaches
reaches-as_str scopes scope = ap (is_among_read scopes) (from_str-as_str scope)

subject-text : (did : Did.Did) → Did.parse did.text ≡ ok did → subject did.text ≡ ok did
unfolding subject
subject-text did parsed = ap or_malformed parsed

unless {ℓ} :
    {A : Type ℓ} (b : Bool) (next : Result Error A) (fault : Error)
    → (fail_if (not b) fault >>= (λ _. next)) ≡ (if b then next else err fault)
unless true next fault = refl
unless false next fault = refl

-- The claims that `mint` puts into a token.
abbrev pub minted : {J : Type 0} → Tokens → ℤ → Did.Did → Scope → Option Str → ℤ → Claims J
minted tokens now did scope jti lifetime = record {
  scope = as_str scope;
  sub = did.text;
  aud = tokens.audience;
  iat = now;
  exp = now +ℤ lifetime;
  jti = jti;
  lxm = none;
  cnf = none;
}

module _ {J : Type 0} (coding : Coding J) (laws : IsCoding coding) where
  decode-write_header :
      (h : Header)
      → decode_part coding coding.read_header (coding.encode (coding.write_header h)) ≡ ok h
  unfolding decode_part
  decode-write_header h =
      rw (laws.decode-encode (coding.write_header h), laws.read-write_header h) refl

  decode-write_claims :
      (c : Claims J)
      → decode_part coding coding.read_claims (coding.encode (coding.write_claims c)) ≡ ok c
  unfolding decode_part
  decode-write_claims c =
      rw (laws.decode-encode (coding.write_claims c), laws.read-write_claims c) refl

  -- A minted token of the kind that is read has its claims in it.
  signed_claims-mint :
      (tokens : Tokens) (now : ℤ) (typ kind : Str) (did : Did.Did) (scope : Scope)
      (jti : Option Str) (lifetime : ℤ)
      → signed_claims coding tokens kind (mint coding tokens now typ did scope jti lifetime) ≡ (
          if str_eq typ kind
          then ok (minted tokens now did scope jti lifetime)
          else err unverifiable)
  unfolding signed_claims mint
  signed_claims-mint tokens now typ kind did scope jti lifetime =
      let claims : Claims J = minted tokens now did scope jti lifetime in
      let header : Header = record { alg = codes "HS256"; typ = typ } in
      let head = coding.encode (coding.write_header header) in
      let body = coding.encode (coding.write_claims claims) in
      let signed = head ++ (b'.' ∷ body) in
      let signature = coding.encode (coding.mac tokens.key signed) in
      let no_dot = laws.encode_no_dot (coding.mac tokens.key signed) in
      rw
        (
          rsplit_once-append b'.' signed signature no_dot,
          split_once-append b'.' head body (laws.encode_no_dot (coding.write_header header)),
          laws.encode_no_dot (coding.write_claims claims),
          decode-write_header header,
          laws.decode-encode (coding.mac tokens.key signed),
          laws.verify-mac tokens.key signed,
          decode-write_claims claims,
        )
        (unless (str_eq typ kind) (ok claims) unverifiable)

  check_claims-minted :
      (tokens : Tokens) (now later : ℤ) (did : Did.Did) (scope : Scope) (jti : Option Str)
      (lifetime : ℤ) (scopes : List Scope) (expired : Expired)
      → check_claims coding tokens later scopes expired (minted tokens now did scope jti lifetime)
        ≡ (if is_refuse expired && leb_ℤ (now +ℤ lifetime) later
            then err token_expired
            else if is_among scopes scope
            then ok (minted tokens now did scope jti lifetime)
            else err bad_scope)
  unfolding check_claims
  check_claims-minted tokens now later did scope jti lifetime scopes expired =
      rw (str_eq_refl tokens.audience, reaches-as_str scopes scope)
        (elim (Bool-cases (is_refuse expired && leb_ℤ (now +ℤ lifetime) later)) [
          | inl late ↦ rw late refl
          | inr fresh ↦ rw fresh (
              unless (is_among scopes scope) (ok (minted {J = J} tokens now did scope jti lifetime))
                bad_scope)
        ])

  -- With base64, JSON and the MAC as documented, and a DID that parses: an access token that was minted
  -- and is read under the same secret and for the same audience is refused as expired from the second it
  -- runs out, gives the session that it was minted for where its scope is among those asked for, and is
  -- refused for its scope else.
  pub verify_access-access_for :
      (tokens : Tokens) (now later : ℤ) (did : Did.Did) (scope : Scope) (lifetime : ℤ)
      (scopes : List Scope)
      → Did.parse did.text ≡ ok did
      → verify_access coding tokens later (access_for coding tokens now did scope lifetime) scopes
        ≡ (if leb_ℤ (now +ℤ lifetime) later
            then err token_expired
            else if is_among scopes scope
            then ok (record { did = did; scope = scope })
            else err bad_scope)
  unfolding verify_access verify access_for
  verify_access-access_for tokens now later did scope lifetime scopes parsed =
      rw
        (
          signed_claims-mint tokens now (codes "at+jwt") (codes "at+jwt") did scope none lifetime,
          check_claims-minted tokens now later did scope none lifetime scopes refuse,
        )
        (elim (Bool-cases (leb_ℤ (now +ℤ lifetime) later)) [
          | inl late ↦ rw late refl
          | inr fresh ↦ rw fresh (elim (Bool-cases (is_among scopes scope)) [
            | inl among ↦ rw (among, subject-text did parsed, from_str-as_str scope) refl
            | inr outside ↦ rw outside refl
          ])
        ])

  verify_refresh-refresh_token :
      (tokens : Tokens) (now later : ℤ) (did : Did.Did) (id : Str) (expired : Expired)
      → Did.parse did.text ≡ ok did
      → verify_refresh coding tokens later (refresh_token coding tokens now did id) expired ≡ (
          if is_refuse expired && leb_ℤ (now +ℤ refresh_lifetime) later
          then err token_expired
          else ok (record { did = did; id = id }))
  unfolding verify_refresh verify refresh_token is_among
  verify_refresh-refresh_token tokens now later did id expired parsed =
      rw
        (
          signed_claims-mint tokens now (codes "refresh+jwt") (codes "refresh+jwt") did refresh
              (some id) refresh_lifetime,
          check_claims-minted tokens now later did refresh (some id) refresh_lifetime (refresh ∷ [])
              expired,
        )
        (elim (Bool-cases (is_refuse expired && leb_ℤ (now +ℤ refresh_lifetime) later)) [
          | inl late ↦ rw late refl
          | inr fresh ↦ rw (fresh, subject-text did parsed) refl
        ])

  -- With base64, JSON and the MAC as documented: neither kind of token is read as the other, whatever
  -- its scope and lifetime, the scopes asked for and the time, expired tokens let through or not.
  verify_wrong_kind :
      (tokens : Tokens) (now later : ℤ) (did : Did.Did) (scope : Scope) (lifetime : ℤ) (id : Str)
      (scopes : List Scope) (expired : Expired)
      → (verify_refresh coding tokens later
            (access_for coding tokens now did scope lifetime)
            expired
          ≡ err unverifiable)
        × (verify_access coding tokens later (refresh_token coding tokens now did id) scopes
            ≡ err unverifiable)
  unfolding verify_access verify_refresh verify access_for refresh_token
  verify_wrong_kind tokens now later did scope lifetime id scopes expired = (
    rw
        (signed_claims-mint tokens now (codes "at+jwt") (codes "refresh+jwt") did scope none
          lifetime)
        refl,
    rw
        (signed_claims-mint tokens now (codes "refresh+jwt") (codes "at+jwt") did refresh (some id)
          refresh_lifetime)
        refl,
  )

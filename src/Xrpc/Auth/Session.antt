-- ===== src/Xrpc/Auth/Session.antt =====
-- What a token that reads as a session vouches for.
use mathlib.Core.Path.{subst}
use manapds.Prelude.{
  not-false, or_false, ==_iff, Bool-cases, List, Option, Option-cases, Str, [], ap, false, inl, inr,
  not, refl, some, true, ℕ, ◌&&◌, ◌++◌, ◌==◌, ◌||◌, ◌∙◌, ◌∷◌, ◌≡◌, sym,
}
use manapds.Prelude.Bytes.{codes, contains, str_eq, split_once}
use manapds.Prelude.Eq.{str_eq→eq}
use manapds.Prelude.Split.{split_once-some}
use manapds.Prelude.Int.{ℤ, leb_ℤ}
use manapds.Prelude.Result.{ok-ok, ok_or-ok, fail_if-ok, ok_or, Result, err, ok, fail_if, bind-ok}
use manapds.Syntax
use manapds.Syntax.Did
use manapds.Xrpc.Auth.{
  is_among_read, refuse, subject, is_among, verify, Access, from_str, or_malformed, verify_access,
  Coding, Header, Claims, Tokens, Scope, Expired, signed_claims, check_claims, decode_part, reaches,
  rsplit_once, unverifiable, malformed, token_expired, bad_scope, is_some, is_refuse,
}

-- A token of one kind, signed under the secret, with the claims in it.
pub record IsSigned {J : Type 0} (coding : Coding J) (tokens : Tokens) (typ token : Str)
    (claims : Claims J) : Type 0 where
  pub head : Str
  pub payload : Str
  pub signature : Str
  pub mac : Str
  pub header_bytes : Str
  pub header : Header
  pub claims_bytes : Str
  pub three_parts : token ≡ (head ++ (b'.' ∷ payload)) ++ (b'.' ∷ signature)
  pub no_more : contains b'.' payload ≡ false
  pub header_decodes : coding.decode head ≡ some header_bytes
  pub header_reads : coding.read_header header_bytes ≡ some header
  pub alg : header.alg ≡ codes "HS256"
  pub kind : header.typ ≡ typ
  pub mac_decodes : coding.decode signature ≡ some mac
  pub vouched : coding.verify_slice tokens.key (head ++ (b'.' ∷ payload)) mac ≡ true
  pub claims_decode : coding.decode payload ≡ some claims_bytes
  pub claims_read : coding.read_claims claims_bytes ≡ some claims

rsplit_once-some : (sep : ℕ) (s a b : Str) → rsplit_once sep s ≡ some (a, b) → s ≡ a ++ (sep ∷ b)
rsplit_once-some sep [] a b h = absurd (cc h)
rsplit_once-some sep (c ∷ s) a b h = elim (Option-cases (rsplit_once sep s)) [
  | inr found ↦
      let ((a', b'), found_at) = found in
      let here : Path (Option (Str × Str)) (some (c ∷ a', b')) (some (a, b)) = rw found_at at h in
      let first : c ∷ a' ≡ a = cc here in
      let rest : b' ≡ b = cc here in
      rw (← first, ← rest) (ap (◌∷◌ c) (rsplit_once-some sep s a' b' found_at))
  | inl none_at ↦ elim (Bool-cases (c == sep)) [
    | inl same ↦
        let here : Path (Option (Str × Str)) (some ([], s)) (some (a, b)) =
          rw (none_at, same) at h in
        let first : [] ≡ a = cc here in
        let rest : s ≡ b = cc here in let e = (==_iff c sep).0 same in rw (← first, ← rest, e) refl
    | inr other ↦ absurd (cc (rw (none_at, other) at h))
  ]
]

reaches-among :
    (scopes : List Scope) (text : Str) (scope : Scope)
    → from_str text ≡ some scope
    → reaches scopes text ≡ true
    → is_among scopes scope ≡ true
unfolding reaches
reaches-among scopes text scope read h = sym (ap (is_among_read scopes) read) ∙ h

module _ {J : Type 0} (coding : Coding J) where
  decode_part-ok {ℓ} :
      {A : Type ℓ} (read : Str → Option A) (part : Str) (a : A)
      → decode_part coding read part ≡ ok a
      → (bytes : Str) × (coding.decode part ≡ some bytes) × (read bytes ≡ some a)
  unfolding decode_part
  decode_part-ok read part a h =
      let (bytes, decoded, on) = bind-ok (ok_or (coding.decode part) unverifiable) _ h in
      (
        bytes,
        ok_or-ok (coding.decode part) unverifiable bytes decoded,
        ok_or-ok (read bytes) malformed a on,
      )

  signed_claims-IsSigned :
      (tokens : Tokens) (typ token : Str) (claims : Claims J)
      → signed_claims coding tokens typ token ≡ ok claims
      → IsSigned coding tokens typ token claims
  unfolding signed_claims
  signed_claims-IsSigned tokens typ token claims h =
      let ((signed, signature), cut, h1) =
        bind-ok (ok_or (rsplit_once b'.' token) unverifiable) _ h in
      let ((head, payload), cut_again, h2) =
        bind-ok (ok_or (split_once b'.' signed) unverifiable) _ h1 in
      let (u2, more, h3) = bind-ok (fail_if (contains b'.' payload) unverifiable) _ h2 in
      let (header, header_read, h4) = bind-ok (decode_part coding coding.read_header head) _ h3 in
      let wrong = not (str_eq header.alg (codes "HS256")) || not (str_eq header.typ typ) in
      let (u4, kind, h5) = bind-ok (fail_if wrong unverifiable) _ h4 in
      let (mac, mac_read, h6) = bind-ok (ok_or (coding.decode signature) unverifiable) _ h5 in
      let forged = not (coding.verify_slice tokens.key signed mac) in
      let (u6, vouched, claims_read) = bind-ok (fail_if forged unverifiable) _ h6 in
      let (header_bytes, header_decodes, header_reads) =
        decode_part-ok coding.read_header head header header_read in
      let (claims_bytes, claims_decode, claims_reads) =
        decode_part-ok coding.read_claims payload claims claims_read in
      let whole =
        rsplit_once-some b'.' token signed signature
          (ok_or-ok (rsplit_once b'.' token) unverifiable (signed, signature) cut) in
      let parts =
        split_once-some b'.' signed head payload
          (ok_or-ok (split_once b'.' signed) unverifiable (head, payload) cut_again) in
      let right =
        or_false (not (str_eq header.alg (codes "HS256"))) (not (str_eq header.typ typ))
          (fail_if-ok wrong unverifiable u4 kind) in
      let vouches =
        not-false (coding.verify_slice tokens.key signed mac)
          (fail_if-ok forged unverifiable u6 vouched) in
      record {
        head = head;
        payload = payload;
        signature = signature;
        mac = mac;
        header_bytes = header_bytes;
        header = header;
        claims_bytes = claims_bytes;
        three_parts = whole ∙ ap (λ s. s ++ (b'.' ∷ signature)) parts;
        no_more = fail_if-ok (contains b'.' payload) unverifiable u2 more;
        header_decodes = header_decodes;
        header_reads = header_reads;
        alg =
            str_eq→eq header.alg (codes "HS256")
              (not-false (str_eq header.alg (codes "HS256")) right.0);
        kind = str_eq→eq header.typ typ (not-false (str_eq header.typ typ) right.1);
        mac_decodes = ok_or-ok (coding.decode signature) unverifiable mac mac_read;
        vouched = subst (λ s. coding.verify_slice tokens.key s mac ≡ true) parts vouches;
        claims_decode = claims_decode;
        claims_read = claims_reads;
      }

  -- What the checks on the claims leave.
  check_claims-ok :
      (tokens : Tokens) (now : ℤ) (scopes : List Scope) (expired : Expired) (claims held : Claims J)
      → check_claims coding tokens now scopes expired claims ≡ ok held
      → (claims ≡ held)
        × ((is_refuse expired && leb_ℤ claims.exp now) ≡ false)
        × (claims.aud ≡ tokens.audience)
        × ((is_some claims.lxm || is_some claims.cnf) ≡ false)
        × (reaches scopes claims.scope ≡ true)
  unfolding check_claims
  check_claims-ok tokens now scopes expired claims held h =
      let (u, fresh, h1) =
        bind-ok (fail_if (is_refuse expired && leb_ℤ claims.exp now) token_expired) _ h in
      let (v, ours, h2) =
        bind-ok (fail_if (not (str_eq claims.aud tokens.audience)) unverifiable) _ h1 in
      let (w, plain, h3) =
        bind-ok (fail_if (is_some claims.lxm || is_some claims.cnf) malformed) _ h2 in
      let (x, far, h4) = bind-ok (fail_if (not (reaches scopes claims.scope)) bad_scope) _ h3 in
      (
        ok-ok claims held h4,
        fail_if-ok (is_refuse expired && leb_ℤ claims.exp now) token_expired u fresh,
        str_eq→eq claims.aud tokens.audience (
            not-false (str_eq claims.aud tokens.audience)
              (fail_if-ok (not (str_eq claims.aud tokens.audience)) unverifiable v ours)),
        fail_if-ok (is_some claims.lxm || is_some claims.cnf) malformed w plain,
        not-false (reaches scopes claims.scope)
            (fail_if-ok (not (reaches scopes claims.scope)) bad_scope x far),
      )

  -- A session that a token is read as.
  pub record IsVouched (tokens : Tokens) (now : ℤ) (scopes : List Scope) (token : Str)
      (session : Access) : Type 0 where
    pub claims : Claims J
    pub signed : IsSigned coding tokens (codes "at+jwt") token claims
    pub ours : claims.aud ≡ tokens.audience
    pub fresh : leb_ℤ claims.exp now ≡ false
    pub plain : (is_some claims.lxm || is_some claims.cnf) ≡ false
    pub whose : Did.parse claims.sub ≡ ok session.did
    pub may : from_str claims.scope ≡ some session.scope
    pub asked_for : is_among scopes session.scope ≡ true

  or_malformed-ok :
      (m : Result Syntax.Error Did.Did) (did : Did.Did) → or_malformed m ≡ ok did → m ≡ ok did
  or_malformed-ok (err _) did h = absurd (cc h)
  or_malformed-ok (ok d) did h = ap ok (ok-ok d did h)

  -- A token that is read as a session is three parts, the last of them a MAC of the other two under this
  -- server's secret, the first a header of access tokens. Its claims are for this server and no service
  -- token's, they run out behind the time of reading, they name the account of the session, and their
  -- scope is the session's and one of those asked for.
  pub verify_access-IsVouched :
      (tokens : Tokens) (now : ℤ) (token : Str) (scopes : List Scope) (session : Access)
      → verify_access coding tokens now token scopes ≡ ok session
      → IsVouched tokens now scopes token session
  unfolding verify_access verify subject
  verify_access-IsVouched tokens now token scopes session h =
      let (claims, checked, h1) =
        bind-ok (verify coding tokens now token (codes "at+jwt") scopes refuse) _ h in
      let (read, is_signed, is_checked) =
        bind-ok (signed_claims coding tokens (codes "at+jwt") token) _ checked in
      let (same, fresh, ours, plain, reaching) =
        check_claims-ok tokens now scopes refuse read claims is_checked in
      let (did, whose, h2) = bind-ok (subject claims.sub) _ h1 in
      let (scope, may, made) = bind-ok (ok_or (from_str claims.scope) malformed) _ h2 in
      let built : Access = record { did = did; scope = scope } in
      let e : built ≡ session = ok-ok built session made in
      let scope_read = ok_or-ok (from_str claims.scope) malformed scope may in
      subst (λ (s : Access). IsVouched tokens now scopes token s) e
        (record {
          claims = claims;
          signed =
              subst (λ (c : Claims J). IsSigned coding tokens (codes "at+jwt") token c) same
                (signed_claims-IsSigned tokens (codes "at+jwt") token read is_signed);
          ours = subst (λ (c : Claims J). c.aud ≡ tokens.audience) same ours;
          fresh = subst (λ (c : Claims J). leb_ℤ c.exp now ≡ false) same fresh;
          plain = subst (λ (c : Claims J). (is_some c.lxm || is_some c.cnf) ≡ false) same plain;
          whose = or_malformed-ok (Did.parse claims.sub) did whose;
          may = scope_read;
          asked_for =
              reaches-among scopes claims.scope scope scope_read
                (subst (λ (c : Claims J). reaches scopes c.scope ≡ true) same reaching);
        })

-- ===== src/Xrpc/Auth/Tests.antt =====
-- The theorems on tokens and callers, with a coding of texts into texts that is easy to follow.
use manapds.Prelude.{
  Option, Str, [], ap, arith, drop, drop-append, false, length, none, refl, some, suc, take,
  take-append, zero, ◌++◌, ◌+◌, ◌-◌, ◌↔◌, ◌∷◌, ◌≡◌,
}
use manapds.Prelude.Bytes.{codes, contains, str_eq, is_utf8}
use manapds.Prelude.Eq.{str_eq_refl}
use manapds.Prelude.Int.{ℤ, pos, negsuc, ◌+ℤ◌}
use manapds.Prelude.Result.{ok}
use manapds.Syntax.Did
use manapds.Xrpc.Auth.{
  verify, signed_claims, check_claims, decode_part, subject, reaches, from_str, as_str, mint,
  Coding, Header, Claims, Tokens, access, standard, full, access_for, verify_access, is_among,
}
use manapds.Xrpc.Auth.Token.{IsCoding, verify_access-access_for}
use manapds.Xrpc.Auth.Session.{IsVouched, verify_access-IsVouched}
use manapds.Xrpc.Credential.{bearer, basic, from_headers, admin, administrator, full_session}
use manapds.Xrpc.Credential.Callers.{admin_iff, full_session-access}

-- A letter of this base64 stands for one number: 256 is added, so no letter is a dot.
abbrev lift : Str → Str
lift [] = []
lift (c ∷ s) = (c + 256) ∷ lift s

abbrev lower : Str → Str
lower [] = []
lower (c ∷ s) = (c - 256) ∷ lower s

lower-lift : (s : Str) → lower (lift s) ≡ s
lower-lift [] = refl
lower-lift (c ∷ s) = let same : c + 256 - 256 ≡ c = omega arith in rw (same, lower-lift s) refl

lift_no_dot : (s : Str) → contains b'.' (lift s) ≡ false
lift_no_dot [] = refl
lift_no_dot (c ∷ s) = ground (arith, lift_no_dot s)

abbrev sized : Str → Str → Str
sized text rest = length text ∷ (text ++ rest)

abbrev number_of : ℤ → Str → Str
number_of (pos n) rest = 0 ∷ n ∷ rest
number_of (negsuc n) rest = 1 ∷ n ∷ rest

abbrev text_of : Option Str → Str → Str
text_of none rest = 0 ∷ rest
text_of (some text) rest = 1 ∷ sized text rest

abbrev flag : Option (Unit {0}) → Str → Str
flag none rest = 0 ∷ rest
flag (some _) rest = 1 ∷ rest

infixl 5 ◌>>=◌
abbrev ◌>>=◌ : {A B : Type 0} → Option A → (A → Option B) → Option B
none >>= f = none
some a >>= f = f a

abbrev read_sized : Str → Option (Str × Str)
read_sized [] = none
read_sized (n ∷ rest) = some (take n rest, drop n rest)

abbrev read_number : Str → Option (ℤ × Str)
read_number (zero ∷ n ∷ rest) = some (pos n, rest)
read_number (suc _ ∷ n ∷ rest) = some (negsuc n, rest)
read_number _ = none

abbrev read_text : Str → Option (Option Str × Str)
read_text [] = none
read_text (zero ∷ rest) = some (none, rest)
read_text (suc _ ∷ rest) = do (text, rest) ← read_sized rest; some (some text, rest)

abbrev read_flag : Str → Option (Option (Unit {0}) × Str)
read_flag [] = none
read_flag (zero ∷ rest) = some (none, rest)
read_flag (suc _ ∷ rest) = some (some tt, rest)

read-number : (n : ℤ) (rest : Str) → read_number (number_of n rest) ≡ some (n, rest)
read-number (pos n) rest = refl
read-number (negsuc n) rest = refl

read-text : (t : Option Str) (rest : Str) → read_text (text_of t rest) ≡ some (t, rest)
read-text none rest = refl
read-text (some text) rest = rw (take-append text rest, drop-append text rest) refl

read-flag : (f : Option (Unit {0})) (rest : Str) → read_flag (flag f rest) ≡ some (f, rest)
read-flag none rest = refl
read-flag (some _) rest = refl

abbrev write_claims : Claims (Unit {0}) → Str
write_claims c = sized c.scope (
    sized c.sub (
      sized c.aud (number_of c.iat (number_of c.exp (text_of c.jti (flag c.lxm (flag c.cnf [])))))))

abbrev read_claims : Str → Option (Claims (Unit {0}))
read_claims s = do
  (scope, s) ← read_sized s
  (sub, s) ← read_sized s
  (aud, s) ← read_sized s
  (iat, s) ← read_number s
  (exp, s) ← read_number s
  (jti, s) ← read_text s
  (lxm, s) ← read_flag s
  (cnf, s) ← read_flag s
  some (record {
    scope = scope;
    sub = sub;
    aud = aud;
    iat = iat;
    exp = exp;
    jti = jti;
    lxm = lxm;
    cnf = cnf;
  })

read-write_claims : (c : Claims (Unit {0})) → read_claims (write_claims c) ≡ some c
read-write_claims c = simp (take-append, drop-append, read-number, read-text, read-flag)

abbrev write_header : Header → Str
write_header h = sized h.alg (sized h.typ [])

abbrev read_header : Str → Option Header
read_header s = do
  (alg, s) ← read_sized s
  (typ, s) ← read_sized s
  some (record { alg = alg; typ = typ })

read-write_header : (h : Header) → read_header (write_header h) ≡ some h
read-write_header h = simp (take-append, drop-append)

abbrev coding : Coding (Unit {0})
coding = record {
  encode = lift;
  decode = λ s. some (lower s);
  write_header = write_header;
  read_header = read_header;
  write_claims = write_claims;
  read_claims = read_claims;
  mac = λ key message. key;
  verify_slice = λ key message mac. str_eq mac key;
}

coding-IsCoding : IsCoding coding
coding-IsCoding = record {
  decode-encode = λ s. ap some (lower-lift s);
  encode_no_dot = lift_no_dot;
  read-write_header = read-write_header;
  read-write_claims = read-write_claims;
  verify-mac = λ key message. str_eq_refl key;
}

abbrev tokens : Tokens
tokens = record { key = codes "secret"; audience = codes "did:web:pds.test" }

abbrev alice : Did.Did
alice = record { text = codes "did:web:a.test" }

alice_parses : Did.parse (codes "did:web:a.test") ≡ ok alice
unfolding Did.parse Did.validate Did.validate_rest Did.is_allowed
alice_parses = refl

abbrev token : Str
token = access_for coding tokens (pos 100) alice access (pos 60)

reads :
    verify_access coding tokens (pos 159) token standard
    ≡ ok (record { did = alice; scope = access })
unfolding ◌+ℤ◌ is_among
reads =
    verify_access-access_for coding coding-IsCoding tokens (pos 100) (pos 159) alice access (pos 60)
      standard alice_parses

verify_access-access_for_example :
    verify_access coding tokens (pos 159) token standard
    ≡ ok (record { did = alice; scope = access })
unfolding ◌+ℤ◌ is_among
verify_access-access_for_example =
    verify_access-access_for coding coding-IsCoding tokens (pos 100) (pos 159) alice access (pos 60)
      standard alice_parses

verify_access-IsVouched_example :
    IsVouched coding tokens (pos 159) standard token (record { did = alice; scope = access })
verify_access-IsVouched_example =
    verify_access-IsVouched coding tokens (pos 159) token standard
      (record { did = alice; scope = access }) reads

abbrev decode_plain : Str → Option Str
decode_plain s = some s

admin_iff_example :
    (admin decode_plain (codes "hunter:2") (some (some (codes "Basic admin:hunter:2"))) ≡ ok tt) ↔ (
      from_headers decode_plain (some (some (codes "Basic admin:hunter:2")))
      ≡ ok (some (basic administrator (codes "hunter:2"))))
admin_iff_example =
    admin_iff decode_plain (codes "hunter:2") (some (some (codes "Basic admin:hunter:2")))

basic_read :
    from_headers decode_plain (some (some (codes "Basic admin:hunter:2")))
    ≡ ok (some (basic administrator (codes "hunter:2")))
unfolding from_headers is_utf8
basic_read = refl

offered :
    full_session decode_plain coding tokens (pos 159) (some (some (codes "Bearer " ++ token)))
    ≡ ok (record { did = alice; scope = access })
unfolding full_session verify_access verify signed_claims check_claims decode_part subject reaches
    is_among from_str as_str access_for mint ◌+ℤ◌ Did.parse Did.validate Did.validate_rest
    Did.is_allowed
offered = refl

full_session-access_example :
    (access ≡ access)
    × ((t : Str) × (from_headers decode_plain (some (some (codes "Bearer " ++ token)))
          ≡ ok (some (bearer t)))
        × IsVouched coding tokens (pos 159) full t (record { did = alice; scope = access }))
full_session-access_example =
    full_session-access decode_plain coding tokens (pos 159)
      (some (some (codes "Bearer " ++ token))) (record { did = alice; scope = access }) offered

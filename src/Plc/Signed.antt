-- ===== src/Plc/Signed.antt =====
-- That the operation which mints an identifier verifies, and that the identifier is one.
use mathlib.Core.Path.{subst}
use manapds.Prelude.{
  Bool, Bool-cases, List, Option, Str, [], all, arith, false, inl, inr, length, none, refl, some,
  suc, take, true, zero, ℕ, ◌++◌, ◌∷◌, ◌≡◌, ◌≤◌,
}
use manapds.Prelude.Bytes.{codes, ends_with_byte}
use manapds.Prelude.Result.{Result, err, ok, bind-ok}
use manapds.Crypto.{base32}
use manapds.Crypto.Base32.{is_base32, base32-IsSpelled}
use manapds.Syntax.Did
use manapds.Syntax.Handle
use manapds.Repo.Commit.{Keypair, PublicKey}
use manapds.Repo.Revision.Next.{IsPair}
use manapds.Plc.{
  Codec, Operation, operation_kind, identifier_len, as_encode, takes, any_verifies, payload, create,
  did, verify,
}

-- A key among those of an operation that takes the signature is enough.
any_verifies-last :
    (read : Str → Option PublicKey) (bytes signed key : Str) (keys : List Str)
    (public_key : PublicKey)
    → read key ≡ some public_key
    → public_key bytes signed ≡ ok tt
    → any_verifies read bytes signed (keys ++ (key ∷ [])) ≡ true
unfolding any_verifies takes
any_verifies-last read bytes signed key [] public_key known good = rw (known, good) refl
any_verifies-last read bytes signed key (k ∷ keys) public_key known good =
    elim (Bool-cases (takes (read k) bytes signed)) [
      | inl here ↦ rw here refl
      | inr other ↦
          rw (other, any_verifies-last read bytes signed key keys public_key known good) refl
    ]

all-take {ℓ} :
    {A : Type ℓ} (p : A → Bool) (n : ℕ) (s : List A) → all p s ≡ true → all p (take n s) ≡ true
all-take p zero s h = refl
all-take p (suc n) [] h = refl
all-take p (suc n) (c ∷ s) h = ground (arith, all-take p n s)

length-take {ℓ} : {A : Type ℓ} (n : ℕ) (s : List A) → n ≤ length s → length (take n s) ≡ n
length-take zero s h = refl
length-take (suc n) [] h = absurd (omega arith)
length-take (suc n) (c ∷ s) h = omega (arith, length-take n s (omega arith))

base32-is_allowed :
    (s : Str)
    → all is_base32 s ≡ true
    → (all Did.is_allowed s ≡ true)
      × (ends_with_byte b':' s ≡ false)
      × (ends_with_byte b'%' s ≡ false)
unfolding is_base32 Did.is_allowed
base32-is_allowed [] h = (refl, refl, refl)
base32-is_allowed (c ∷ s) h = ground (arith, base32-is_allowed s)

parse-plc :
    (s : Str)
    → all is_base32 s ≡ true
    → length s ≡ identifier_len
    → Did.parse (codes "did:plc:" ++ s) ≡ ok (record { text = codes "did:plc:" ++ s })
unfolding Did.parse Did.validate Did.validate_rest
parse-plc s h len =
    let (allowed, colon, percent) = base32-is_allowed s h in
    ground (arith, allowed, colon, percent, len)

-- What the code relies on of the text of a signature.
pub record IsText (codec : Codec) : Type 0 where
  pub unbase64-base64 : (bytes : Str) → codec.unbase64 (codec.base64 bytes) ≡ some bytes

-- SHA-256 is 32 bytes long.
abbrev pub IsSha256 : (Str → Str) → Type 0
IsSha256 hash = (bytes : Str) → length (hash bytes) ≡ 32

as_encode-ok : (m : Result Str Str) (bytes : Str) → as_encode m ≡ ok bytes → m ≡ ok bytes
as_encode-ok (ok b) bytes h = cc h
as_encode-ok (err said) bytes h = absurd (cc h)

-- The operation that `create` signs.
unsigned : Handle.Handle → Str → Str → List Str → Str → Operation
unsigned handle pds signing_key recovery_keys printed = record {
  kind = operation_kind;
  rotation_keys = recovery_keys ++ (printed ∷ []);
  verification_methods = (codes "atproto", signing_key) ∷ [];
  also_known_as = (codes "at://" ++ handle.text) ∷ [];
  services =
      (codes "atproto_pds", record { kind = codes "AtprotoPersonalDataServer"; endpoint = pds })
      ∷ [];
  prev = none;
  sig = none;
}

verify-signed :
    (codec : Codec) (handle : Handle.Handle) (pds signing_key : Str) (recovery_keys : List Str)
    (printed bytes : Str) (key : Keypair) (public_key : PublicKey)
    → IsText codec
    → IsPair key public_key
    → codec.read_key printed ≡ some public_key
    → payload codec (unsigned handle pds signing_key recovery_keys printed) ≡ ok bytes
    → verify codec (record (unsigned handle pds signing_key recovery_keys printed) {
      sig = some (codec.base64 (key bytes));
    })
      ≡ ok tt
unfolding unsigned verify payload
verify-signed codec handle pds signing_key recovery_keys printed bytes key public_key text pair
      known encoded =
    rw
      (
        text.unbase64-base64 (key bytes),
        encoded,
        any_verifies-last codec.read_key bytes (key bytes) printed recovery_keys public_key known
            (pair.takes bytes),
      )
      refl

-- Where the server's key is printed as a text that reads back as its public half, and base64 reads back:
-- the operation that creates an account, whatever the handle and the recovery keys, verifies where it
-- encodes, and its keys are the recovery keys and then the server's own.
pub create-verify :
    (codec : Codec) (handle : Handle.Handle) (pds signing_key : Str) (recovery_keys : List Str)
    (printed : Str) (key : Keypair) (public_key : PublicKey) (operation : Operation)
    → IsText codec
    → IsPair key public_key
    → codec.read_key printed ≡ some public_key
    → create codec handle pds signing_key recovery_keys printed key ≡ ok operation
    → (verify codec operation ≡ ok tt) × (operation.rotation_keys ≡ recovery_keys ++ (printed ∷ []))
unfolding create unsigned
create-verify codec handle pds signing_key recovery_keys printed key public_key operation text pair
      known made =
    let bare = unsigned handle pds signing_key recovery_keys printed in
    let (bytes, encoded, on) =
      bind-ok (payload codec bare)
        (λ bytes. ok (record bare { sig = some (codec.base64 (key bytes)) })) made in
    let same : Path Operation (record bare { sig = some (codec.base64 (key bytes)) }) operation =
      cc on in
    (
      subst (λ it. verify codec it ≡ ok tt) same
          (verify-signed codec handle pds signing_key recovery_keys printed bytes key public_key
            text pair known encoded),
      subst (λ (it : Operation). it.rotation_keys ≡ recovery_keys ++ (printed ∷ [])) same refl,
    )

-- Where a digest has 32 bytes: the identifier of an operation that encodes is a DID, so `did` does not
-- panic, of 32 characters.
pub did-parse :
    (codec : Codec) (operation : Operation) (bytes : Str)
    → IsSha256 codec.sha256
    → codec.encode_operation operation ≡ ok bytes
    → (it : Did.Did) × (did codec operation ≡ ok (some it)) × (length it.text ≡ 32)
unfolding did
did-parse codec operation bytes digest encoded =
    let (spelled, long) = base32-IsSpelled (codec.sha256 bytes) in
    let len = digest bytes in
    let name = take identifier_len (base32 (codec.sha256 bytes)) in
    let cut : length name ≡ identifier_len =
      length-take identifier_len (base32 (codec.sha256 bytes)) (omega (arith, long, len)) in
    let parsed = parse-plc name (all-take is_base32 identifier_len _ spelled) cut in
    (record { text = codes "did:plc:" ++ name }, rw (encoded, parsed) refl, omega (arith, cut))

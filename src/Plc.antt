-- ===== src/Plc.antt =====
-- src/plc.rs: the operation that mints an identifier, and what the directory is asked. The encoding of an
-- operation, base64, SHA-256, the keys and the printer of CIDs are third-party code, and arguments.
pub mod Client
pub mod Signed
pub mod Left
pub mod Told
pub mod Timed
mod Tests
use manapds.Prelude.{
  Bool, List, Option, Str, [], none, not, some, take, true, ℕ, ◌++◌, ◌||◌, ◌∷◌, false,
}
use manapds.Prelude.Bytes.{codes, str_eq}
use manapds.Prelude.Decimal.{decimal}
use manapds.Prelude.Map.{Map}
use manapds.Prelude.Result.{Result, err, ok, ok_or, fail_if, ◌>>=◌, ◌>>◌}
use manapds.Crypto
use manapds.Syntax.Did
use manapds.Syntax.Handle
use manapds.Repo.Commit.{Keypair, PublicKey}

pub data Error : Type 0 where
  encode : Str → Error
  signature : Error
  malformed : Str → Error
  unreachable : Str → Error
  uncertain : Str → Error
  refused : ℕ → Str → Error

-- How an error prints.
unfoldable pub shown : Error → Str
shown (encode said) = codes "encoding an operation: " ++ said
shown signature = codes "no rotation key signed this operation"
shown (malformed said) = said
shown (unreachable said) = codes "plc directory: " ++ said
shown (uncertain said) = codes "plc directory would not say: " ++ said
shown (refused status said) =
    codes "plc directory refused the operation: " ++ (decimal status ++ (b' ' ∷ said))

pub record Service : Type 0 where
  pub kind : Str
  pub endpoint : Str

pub record Operation : Type 0 where
  pub kind : Str
  pub rotation_keys : List Str
  pub verification_methods : Map Str Str
  pub also_known_as : List Str
  pub services : Map Str Service
  pub prev : Option Str
  pub sig : Option Str

pub record Tombstone : Type 0 where
  pub kind : Str
  pub prev : Str
  pub sig : Option Str

abbrev pub operation_kind : Str
operation_kind = codes "plc_operation"

abbrev pub tombstone_kind : Str
tombstone_kind = codes "plc_tombstone"

abbrev pub identifier_len : ℕ
identifier_len = 24

-- What the operations take of other crates. A public key is read from the text it is printed as.
pub record Codec : Type 0 where
  pub encode_operation : Operation → Result Str Str
  pub encode_tombstone : Tombstone → Result Str Str
  pub cid_text : Str → Str
  pub sha256 : Str → Str
  pub base64 : Str → Str
  pub unbase64 : Str → Option Str
  pub read_key : Str → Option PublicKey

-- `?` on an error of the encoding
abbrev pub as_encode {ℓ} : {A : Type ℓ} → Result Str A → Result Error A
as_encode (ok a) = ok a
as_encode (err said) = err (encode said)

abbrev pub is_ok : {E : Type 0} {A : Type 0} → Result E A → Bool
is_ok (ok _) = true
is_ok (err _) = false

-- Whether a key takes a signature. A text that is no key takes none.
unfoldable pub takes : Option PublicKey → Str → Str → Bool
takes none bytes signed = false
takes (some public_key) bytes signed = is_ok (public_key bytes signed)

unfoldable pub any_verifies : (Str → Option PublicKey) → Str → Str → List Str → Bool
unfolding takes
any_verifies read bytes signed [] = false
any_verifies read bytes signed (key ∷ keys) =
    takes (read key) bytes signed || any_verifies read bytes signed keys

module _ (codec : Codec) where
  -- `Operation::payload`
  unfoldable pub payload : Operation → Result Error Str
  payload operation = as_encode (codec.encode_operation (record operation { sig = none }))

  -- `Operation::create`. A public key is given as the text it prints as.
  unfoldable pub create :
      Handle.Handle → Str → Str → List Str → Str → Keypair → Result Error Operation
  unfolding payload
  create handle pds signing_key recovery_keys public_key rotation = do
    let operation : Operation = record {
      kind = operation_kind;
      rotation_keys = recovery_keys ++ (public_key ∷ []);
      verification_methods = (codes "atproto", signing_key) ∷ [];
      also_known_as = (codes "at://" ++ handle.text) ∷ [];
      services =
          (codes "atproto_pds", record { kind = codes "AtprotoPersonalDataServer"; endpoint = pds })
          ∷ [];
      prev = none;
      sig = none;
    }
    bytes ← payload operation
    ok (record operation { sig = some (codec.base64 (rotation bytes)) })

  -- `Operation::did`; `none` is the panic of its `expect`.
  unfoldable pub did : Operation → Result Error (Option Did.Did)
  did operation = do
    bytes ← as_encode (codec.encode_operation operation)
    ok
        (elim (Did.parse
          (codes "did:plc:" ++ take identifier_len (Crypto.base32 (codec.sha256 bytes)))) [
            | ok it ↦ some it
            | err _ ↦ none
          ])

  -- `Operation::verify`
  unfoldable pub verify : Operation → Result Error (Unit {0})
  unfolding payload any_verifies
  verify operation = do
    fail_if (not (str_eq operation.kind operation_kind)) (malformed (codes "not a plc operation"))
    text ← ok_or operation.sig (malformed (codes "operation carries no signature"))
    signed ← ok_or (codec.unbase64 text) signature
    bytes ← payload operation
    fail_if (not (any_verifies codec.read_key bytes signed operation.rotation_keys)) signature

  -- `Tombstone::create`
  unfoldable pub retiring : Operation → Keypair → Result Error Tombstone
  retiring previous rotation = do
    followed ← as_encode (codec.encode_operation previous)
    let tombstone : Tombstone = record {
      kind = tombstone_kind;
      prev = codec.cid_text followed;
      sig = none;
    }
    bytes ← as_encode (codec.encode_tombstone tombstone)
    ok (record tombstone { sig = some (codec.base64 (rotation bytes)) })

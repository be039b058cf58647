-- ===== src/Repo/Commit.antt =====
-- src/repo/commit.rs: a tree root, signed. The codec of a commit and the keys are third-party code, and
-- arguments.
use manapds.Prelude.{Option, Str, none, not, ℕ, ◌==◌}
use manapds.Prelude.Result.{Result, ok, err, ◌>>=◌, ◌>>◌, fail_if}
use manapds.Crypto
use manapds.Syntax.Did
use manapds.Syntax.Tid
use manapds.Repo.{Cid, Error}

abbrev pub version_now : ℕ
version_now = 3

pub record Commit : Type 0 where
  pub did : Did.Did
  pub version : ℕ
  pub root : Cid
  pub rev : Tid.Tid
  pub prev : Option Cid
  pub sig : Str

-- `Unsigned`
pub record Unsigned : Type 0 where
  pub did : Did.Did
  pub version : ℕ
  pub root : Cid
  pub rev : Tid.Tid
  pub prev : Option Cid

pub record Codec : Type 0 where
  pub encode_unsigned : Unsigned → Result Error Str
  pub encode : Commit → Result Error Str
  pub decode : Str → Result Error Commit

-- A key that signs, and one that verifies.
abbrev pub Keypair : Type 0
Keypair = Str → Str

abbrev pub PublicKey : Type 0
PublicKey = Str → Str → Result Crypto.Error (Unit {0})

-- `Commit::sign`
unfoldable pub sign : Codec → Did.Did → Tid.Tid → Cid → Keypair → Result Error Commit
sign codec did rev root key = do
  bytes ←
      codec.encode_unsigned
        (record { did = did; version = version_now; root = root; rev = rev; prev = none })
  ok (record {
    did = did;
    version = version_now;
    root = root;
    rev = rev;
    prev = none;
    sig = key bytes;
  })

-- `?` on an error of a key
abbrev pub as_signature {ℓ} : {A : Type ℓ} → Result Crypto.Error A → Result Error A
as_signature (ok a) = ok a
as_signature (err fault) = err (Error.signature fault)

-- `Commit::verify`
unfoldable pub verify : Codec → Commit → PublicKey → Result Error (Unit {0})
verify codec commit key = do
  fail_if (not (commit.version == version_now)) (Error.wrong_version commit.version)
  bytes ← codec.encode_unsigned (record {
    did = commit.did;
    version = commit.version;
    root = commit.root;
    rev = commit.rev;
    prev = commit.prev;
  })
  as_signature (key bytes commit.sig)

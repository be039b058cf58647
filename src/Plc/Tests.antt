-- ===== src/Plc/Tests.antt =====
-- The theorems on operations and on the client of the directory at concrete inputs: a directory that
-- takes what it is sent, behind a network that loses its answer.
use manapds.Prelude.{
  Bool, [], arith, false, if◌then◌else◌, length, none, refl, some, true, ℕ, ◌++◌, ◌+◌, ◌/◌, ◌∷◌,
  ◌≡◌, ◌≤◌,
}
use manapds.Prelude.Bytes.{codes, str_eq}
use manapds.Prelude.Eq.{str_eq_refl}
use manapds.Prelude.Result.{Result, err, ok}
use manapds.Crypto
use manapds.Crypto.{base32}
use manapds.Syntax.Did
use manapds.Syntax.Handle
use manapds.Repo.Commit.{Keypair, PublicKey}
use manapds.Repo.Revision.Next.{IsPair}
use manapds.Plc.{Codec, Error, Operation, create, did, verify, payload}
use manapds.Plc.Client.{
  Net, Client, Reply, no_answer, answered, attempt, attempt_to, exchanged, holds, asked, document,
  confirm, sent_again, read_again, settled, answer_to, send, retire, share, address, named,
}
use manapds.Plc.Left.{IsHonest}
use manapds.Plc.Told.{IsTold, send-IsTold}
use manapds.Plc.Timed.{IsTimed, send-retire-budget}
use manapds.Plc.Signed.{IsText, create-verify, did-parse}

record Directory : Type 0 where
  taken : Bool
  now : ℕ

abbrev alice : Did.Did
alice = record { text = codes "did:plc:alice" }

abbrev client : Client
client = record { url = codes "http://plc"; answer = 30 }

abbrev asking : Directory → Reply
asking s = if s.taken then answered 200 (some alice.text) else answered 404 none

abbrev net : Net Directory
net = record {
  request_to = λ target. ok target;
  post = λ budget target body s. (record { taken = true; now = s.now + budget }, no_answer);
  get = λ budget target s. (s, asking s);
  lossy = λ body. body;
  document_id = λ body. some body;
}

abbrev held : Directory → Bool
held s = s.taken

abbrev fresh : Directory
fresh = record { taken = false; now = 100 }

net-IsHonest : IsHonest net held client alice
unfolding document named
net-IsHonest = record {
  post-success = λ budget target body s status said to e. absurd (cc e);
  post-refused = λ budget target body s status said to e. absurd (cc e);
  post-unsent = λ budget target body said s to e. absurd (cc e);
  get-held = λ budget target s to. refl;
  get-yes = λ budget target s to e. ground arith;
  get-no = λ budget target s to e. ground arith;
}

net-IsTimed : IsTimed net (λ s. s.now)
net-IsTimed = record {
  post-budget = λ budget target body s. omega arith;
  get-budget = λ budget target s. omega arith;
}

landed : (send net client alice (ok (codes "{}")) fresh).1 ≡ ok tt
unfolding send attempt attempt_to exchanged answer_to confirm holds asked document named sent_again
    read_again settled share address
landed = refl

send-IsTold_example :
    IsTold
      (held (send net client alice (ok (codes "{}")) fresh).0)
      (send net client alice (ok (codes "{}")) fresh).1
send-IsTold_example = send-IsTold net held client alice net-IsHonest (ok (codes "{}")) fresh refl

send-retire-budget_example :
    ((send net client alice (ok (codes "{}")) fresh).0.now ≤ 100 + 30)
    × ((retire net client alice (ok (codes "{}")) fresh).0.now ≤ 100 + 30 / 3)
send-retire-budget_example =
    send-retire-budget net (λ s. s.now) client alice net-IsTimed (ok (codes "{}")) fresh

abbrev key : Keypair
key message = b'!' ∷ message

abbrev public_key : PublicKey
public_key message signed =
    if str_eq signed (b'!' ∷ message) then ok tt else err Crypto.Error.bad_signature

abbrev codec : Codec
codec = record {
  encode_operation = λ operation. ok (codes "operation");
  encode_tombstone = λ tombstone. ok (codes "tombstone");
  cid_text = λ cid. cid;
  sha256 = λ bytes. codes "0123456789abcdef0123456789abcdef";
  base64 = λ bytes. bytes;
  unbase64 = λ text. some text;
  read_key = λ text. some public_key;
}

codec-IsText : IsText codec
codec-IsText = record { unbase64-base64 = λ bytes. refl }

key-IsPair : IsPair key public_key
key-IsPair = record { takes = λ message. rw (str_eq_refl (b'!' ∷ message)) refl }

abbrev handle : Handle.Handle
handle = record { text = codes "alice.test" }

abbrev genesis : Result Error Operation
genesis =
    create codec handle (codes "https://pds") (codes "did:key:a") (codes "did:key:r" ∷ [])
      (codes "did:key:s") key

abbrev operation : Operation
operation = record {
  kind = codes "plc_operation";
  rotation_keys = codes "did:key:r" ∷ codes "did:key:s" ∷ [];
  verification_methods = (codes "atproto", codes "did:key:a") ∷ [];
  also_known_as = codes "at://alice.test" ∷ [];
  services =
      (
        codes "atproto_pds",
        record { kind = codes "AtprotoPersonalDataServer"; endpoint = codes "https://pds" },
      )
      ∷ [];
  prev = none;
  sig = some (codes "!operation");
}

made : genesis ≡ ok operation
unfolding create payload
made = refl

create-verify_example :
    (verify codec operation ≡ ok tt)
    × (operation.rotation_keys ≡ (codes "did:key:r" ∷ []) ++ (codes "did:key:s" ∷ []))
create-verify_example =
    create-verify codec handle (codes "https://pds") (codes "did:key:a") (codes "did:key:r" ∷ [])
      (codes "did:key:s") key public_key operation codec-IsText key-IsPair refl made

did-parse_example : (it : Did.Did) × (did codec operation ≡ ok (some it)) × (length it.text ≡ 32)
did-parse_example = did-parse codec operation (codes "operation") (λ bytes. refl) refl

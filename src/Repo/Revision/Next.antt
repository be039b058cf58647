-- ===== src/Repo/Revision/Next.antt =====
-- The revision behind writes that were applied: later, signed, stored, and in the place of the last.
use mathlib.Core.Path.{subst}
use manapds.Prelude.{
  Bool-cases, List, Option, Str, [], arith, inl, inr, refl, some, sym, true, ℕ, ◌++◌, ◌∷◌, ◌≡◌, ◌⊎◌,
}
use manapds.Prelude.Bytes.{str_lt, str_eq}
use manapds.Prelude.Eq.{Str_eq, str_eq_refl, str_eq→eq}
use manapds.Prelude.Map.{lookup}
use manapds.Prelude.Search.{mem}
use manapds.Prelude.Result.{ok}
use manapds.Syntax.Tid
use manapds.Syntax.Tid.Mint.{mint_after-climbs}
use manapds.Repo.{Cid}
use manapds.Repo.Block
use manapds.Repo.Block.{BlockMap, Store, store_of}
use manapds.Repo.Commit.{Commit, Codec, Keypair, PublicKey}
use manapds.Repo.Mst.{Reader, load}
use manapds.Repo.Write.{Write, Records}
use manapds.Repo.Revision.{State, leave, apply, load_repo, verify}
use manapds.Repo.Revision.Advance.{apply-IsAdvanced, verify-signed}

-- What the code relies on of keys, and of the codec of a commit.
pub record IsPair (key : Keypair) (public_key : PublicKey) : Type 0 where
  pub takes : (message : Str) → public_key message (key message) ≡ ok tt

pub record IsCodec (codec : Codec) : Type 0 where
  pub decode-encode :
      (commit : Commit) (bytes : Str)
      → codec.encode commit ≡ ok bytes
      → codec.decode bytes ≡ ok commit

mem-last : (cid : Cid) (gone : List Cid) → mem cid (gone ++ (cid ∷ [])) ≡ true
mem-last cid [] = rw (str_eq_refl cid) refl
mem-last cid (g ∷ gone) = ground (arith, mem-last cid gone)

leave-mem :
    (superseded cid : Cid) (gone : List Cid)
    → (cid ≡ superseded) ⊎ (mem superseded (leave superseded cid gone) ≡ true)
leave-mem superseded cid gone = elim (Bool-cases (str_eq cid superseded)) [
  | inl same ↦ inl (str_eq→eq cid superseded same)
  | inr other ↦ inr (rw other (mem-last superseded gone))
]

load_repo-stored :
    (codec : Codec) (blocks : BlockMap) (cid : Cid) (commit : Commit) (bytes : Str)
    → lookup cid blocks ≡ some bytes
    → codec.decode bytes ≡ ok commit
    → load_repo codec (store_of blocks) cid
      ≡ ok (record { cid = cid; commit = commit; tree = load commit.root })
unfolding load_repo Block.read store_of
load_repo-stored codec blocks cid commit bytes held decodes = rw (held, decodes) refl

-- With keys and the codec of a commit as documented, writes that are applied on top of a revision whose
-- TID parsed come to a revision of the same account that sorts above it. Its commit verifies under the
-- public half of the key, and the blocks that are handed back are enough to load it again under its CID,
-- with the tree by its root. The old revision's CID is among those let go of, unless it is the new one's.
pub apply-next :
    {R : Type 0} (fuel : ℕ) (wall : Option ℕ) (r : Reader) (codec : Codec) (records : Records R)
    (key : Keypair) (public_key : PublicKey) (writes : List (Write R)) (s s' : State)
    (blocks : BlockMap) (gone : List Cid)
    → IsPair key public_key
    → IsCodec codec
    → Tid.parse s.repo.commit.rev.text ≡ ok s.repo.commit.rev
    → apply fuel wall r codec records key writes s ≡ (s', some (ok (blocks, gone)))
    → (s'.repo.commit.did ≡ s.repo.commit.did)
      × (str_lt s.repo.commit.rev.text s'.repo.commit.rev.text ≡ true)
      × (verify codec s'.repo public_key ≡ ok tt)
      × (load_repo codec (store_of blocks) s'.repo.cid
          ≡ ok (record s'.repo { tree = load s'.repo.commit.root }))
      × ((s'.repo.cid ≡ s.repo.cid) ⊎ (mem s.repo.cid gone ≡ true))
unfolding verify
apply-next fuel wall r codec records key public_key writes s s' blocks gone pair codes parsed
      applied =
    let next = apply-IsAdvanced fuel wall r codec records key writes s s' blocks gone applied in
    (
      next.owner,
      (mint_after-climbs wall s.clock s.repo.commit.rev.text parsed next.minted).0,
      verify-signed codec key public_key s'.repo.commit pair.takes next.signed,
      load_repo-stored codec blocks s'.repo.cid s'.repo.commit next.commit_bytes next.stored
          (codes.decode-encode s'.repo.commit next.commit_bytes next.encodes),
      subst (λ (g : List Cid). (s'.repo.cid ≡ s.repo.cid) ⊎ (mem s.repo.cid g ≡ true))
          (sym next.let_go) (leave-mem s.repo.cid s'.repo.cid next.unreached),
    )

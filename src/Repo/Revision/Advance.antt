-- ===== src/Repo/Revision/Advance.antt =====
-- What a revision is behind writes that were applied.
use mathlib.Core.Path.{subst}
use manapds.Prelude.{List, Option, Str, [], ap, none, refl, some, sym, true, ℕ, ◌==◌, ◌∙◌, ◌≡◌}
use manapds.Prelude.Eq.{Str_eq, str_eq_refl}
use manapds.Prelude.Map.{lookup, insert, lookup-insert}
use manapds.Prelude.Result.{Result, ok, err, ok_or, bind-ok, ok-ok, ok_or-ok}
use manapds.Syntax.Did
use manapds.Syntax.Tid
use manapds.Syntax.Tid.{mint_after}
use manapds.Repo.{Cid, Error}
use manapds.Repo.Block
use manapds.Repo.Block.{BlockMap, merge, store_of}
use manapds.Repo.Commit
use manapds.Repo.Commit.{Commit, Codec, Keypair, PublicKey, sign, version_now}
use manapds.Repo.Mst.{Mst, Reader}
use manapds.Repo.Mst.Blocks
use manapds.Repo.Mst.Dropped.{dropped}
use manapds.Repo.Write.{Write, Records, Batch, check_all, apply_all, on_new_reader}
use manapds.Repo.Revision.{
  State, Step, ◌>>=◌, continue, given, fueled, in_time, next_rev, kept, leave, apply,
}

-- A step that came to a value had one in its first part.
continue-ok {ℓ} :
    {A B : Type ℓ} (t : State × Option (Result Error A)) (f : A → Step B) (s' : State) (b : B)
    → continue t f ≡ (s', some (ok b))
    → (a : A) × (t.1 ≡ some (ok a)) × (f a t.0 ≡ (s', some (ok b)))
continue-ok (s, none) f s' b h = absurd (cc h)
continue-ok (s, some (err fault)) f s' b h = absurd (cc h)
continue-ok (s, some (ok a)) f s' b h = (a, refl, h)

>>=-ok {ℓ} :
    {A B : Type ℓ} (m : Step A) (f : A → Step B) (s s' : State) (b : B)
    → (m >>= f) s ≡ (s', some (ok b))
    → (a : A) × ((m s).1 ≡ some (ok a)) × (f a (m s).0 ≡ (s', some (ok b)))
>>=-ok m f s s' b h = continue-ok (m s) f s' b h

in_time-ok {ℓ} :
    {A : Type ℓ} (m : Result Error (Option A)) (a : A) → in_time m ≡ some (ok a) → m ≡ ok (some a)
in_time-ok (err fault) a h = absurd (cc h)
in_time-ok (ok none) a h = absurd (cc h)
in_time-ok (ok (some b)) a h = let e : b ≡ a = cc h in rw e refl

-- What `sign` makes, where it makes something.
pub record IsSignedBy (codec : Codec) (key : Keypair) (commit : Commit) : Type 0 where
  pub version : commit.version ≡ version_now
  pub prev : commit.prev ≡ none
  pub bytes : Str
  pub encodes :
      codec.encode_unsigned (record {
        did = commit.did;
        version = commit.version;
        root = commit.root;
        rev = commit.rev;
        prev = commit.prev;
      })
      ≡ ok bytes
  pub signature : commit.sig ≡ key bytes

sign-IsSignedBy :
    (codec : Codec) (did : Did.Did) (rev : Tid.Tid) (root : Cid) (key : Keypair) (commit : Commit)
    → sign codec did rev root key ≡ ok commit
    → IsSignedBy codec key commit × (commit.did ≡ did) × (commit.rev ≡ rev) × (commit.root ≡ root)
unfolding sign
sign-IsSignedBy codec did rev root key commit h =
    let (bytes, encoded, made) =
      bind-ok
        (codec.encode_unsigned
          (record { did = did; version = version_now; root = root; rev = rev; prev = none }))
        _ h in
    let built : Commit = record {
      did = did;
      version = version_now;
      root = root;
      rev = rev;
      prev = none;
      sig = key bytes;
    } in
    let e : built ≡ commit = ok-ok built commit made in
    subst (λ (c : Commit). IsSignedBy codec key c × (c.did ≡ did) × (c.rev ≡ rev) × (c.root ≡ root))
      e
      (
        record { version = refl; prev = refl; bytes = bytes; encodes = encoded; signature = refl },
        refl,
        refl,
        refl,
      )

-- A signed commit verifies under a key that takes what the keypair signs.
pub verify-signed :
    (codec : Codec) (key : Keypair) (public_key : PublicKey) (commit : Commit)
    → ((message : Str) → public_key message (key message) ≡ ok tt)
    → IsSignedBy codec key commit
    → Commit.verify codec commit public_key ≡ ok tt
unfolding Commit.verify
verify-signed codec key public_key commit takes signed =
    let same : (commit.version == version_now) ≡ true = rw signed.version refl in
    rw (same, signed.encodes, signed.signature, takes signed.bytes) refl

-- What is so behind writes that were applied, `s` before and `s'` behind.
pub record IsAdvanced {R : Type 0} (fuel : ℕ) (wall : Option ℕ) (r : Reader) (codec : Codec)
    (records : Records R) (key : Keypair) (writes : List (Write R)) (s s' : State)
    (blocks : BlockMap) (gone : List Cid) : Type 0 where
  pub checked : check_all records writes ≡ ok tt
  pub batch : Batch
  pub applied :
      apply_all r records writes (record { encoded = []; leaves = []; tree = s.repo.tree })
      ≡ ok batch
  pub nodes : BlockMap
  pub rooted :
      on_new_reader (Blocks.unstored_blocks r batch.tree)
      ≡ ok (s'.repo.tree, s'.repo.commit.root, nodes)
  pub unreached : List Cid
  pub walked : dropped fuel r s'.repo.tree s.repo.tree ≡ ok (some unreached)
  pub let_go : gone ≡ leave s.repo.cid s'.repo.cid unreached
  pub owner : s'.repo.commit.did ≡ s.repo.commit.did
  pub ticked : s'.clock ≡ (mint_after wall s.clock s.repo.commit.rev).0
  pub minted : (mint_after wall s.clock s.repo.commit.rev).1 ≡ some s'.repo.commit.rev
  pub signed : IsSignedBy codec key s'.repo.commit
  pub commit_bytes : Str
  pub encodes : codec.encode s'.repo.commit ≡ ok commit_bytes
  pub named : s'.repo.cid ≡ r.cid_for commit_bytes
  pub stored : lookup s'.repo.cid blocks ≡ some commit_bytes

add-ok :
    (encode : Commit → Result Error Str) (cid_for : Str → Cid) (commit : Commit)
    (blocks blocks' : BlockMap) (cid : Cid)
    → Block.add encode cid_for commit blocks ≡ ok (blocks', cid)
    → (bytes : Str) × (encode commit ≡ ok bytes)
      × (cid ≡ cid_for bytes)
      × (lookup cid blocks' ≡ some bytes)
unfolding Block.add
add-ok encode cid_for commit blocks blocks' cid h =
    let (bytes, encoded, made) = bind-ok (encode commit) _ h in
    let e = ok-ok (insert (cid_for bytes) bytes blocks, cid_for bytes) (blocks', cid) made in
    let named : cid_for bytes ≡ cid = ap (λ (p : BlockMap × Cid). p.1) e in
    let put : insert (cid_for bytes) bytes blocks ≡ blocks' = ap (λ (p : BlockMap × Cid). p.0) e in
    (
      bytes,
      encoded,
      sym named,
      subst (λ (c : Cid). lookup c blocks' ≡ some bytes) named
          (subst (λ (m : BlockMap). lookup (cid_for bytes) m ≡ some bytes) put
            (lookup-insert (cid_for bytes) (cid_for bytes) bytes blocks
              ∙ rw (str_eq_refl (cid_for bytes)) refl)),
    )

some-some {ℓ} : {A : Type ℓ} (m : Result Error A) (a : A) → some m ≡ some (ok a) → m ≡ ok a
some-some m a h = cc h

module _ {R : Type 0} (fuel : ℕ) (wall : Option ℕ) (r : Reader) (codec : Codec)
    (records : Records R) (key : Keypair) where
  -- The parts of `apply`, put together.
  parts-IsAdvanced :
      (writes : List (Write R)) (s : State) (batch : Batch) (tree : Mst) (root : Cid)
      (nodes : BlockMap) (unreached : List Cid) (rev : Tid.Tid) (commit : Commit)
      (leaves blocks : BlockMap) (cid : Cid)
      → check_all records writes ≡ ok tt
      → apply_all r records writes (record { encoded = []; leaves = []; tree = s.repo.tree })
        ≡ ok batch
      → on_new_reader (Blocks.unstored_blocks r batch.tree) ≡ ok (tree, root, nodes)
      → dropped fuel r tree s.repo.tree ≡ ok (some unreached)
      → (mint_after wall s.clock s.repo.commit.rev).1 ≡ some rev
      → sign codec s.repo.commit.did rev root key ≡ ok commit
      → Block.add codec.encode r.cid_for commit (merge leaves nodes) ≡ ok (blocks, cid)
      → IsAdvanced fuel wall r codec records key writes s
          (record {
            repo = record { cid = cid; commit = commit; tree = tree };
            clock = (mint_after wall s.clock s.repo.commit.rev).0;
          })
          blocks
          (leave s.repo.cid cid unreached)
  parts-IsAdvanced writes s batch tree root nodes unreached rev commit leaves blocks cid checked
        applied rooted walked minted signed put =
      let (made, owner, same_rev, same_root) =
        sign-IsSignedBy codec s.repo.commit.did rev root key commit signed in
      let (bytes, encodes, named, stored) =
        add-ok codec.encode r.cid_for commit (merge leaves nodes) blocks cid put in
      record {
        checked = checked;
        batch = batch;
        applied = applied;
        nodes = nodes;
        rooted = rooted ∙ ap (λ (c : Cid). ok (tree, c, nodes)) (sym same_root);
        unreached = unreached;
        walked = walked;
        let_go = refl;
        owner = owner;
        ticked = refl;
        minted = minted ∙ ap some (sym same_rev);
        signed = made;
        commit_bytes = bytes;
        encodes = encodes;
        named = named;
        stored = stored;
      }

  abbrev Outcome :
      List (Write R) → State → State × Option (Result Error (BlockMap × List Cid)) → Type 0
  Outcome writes s (s', none) = Unit
  Outcome writes s (s', some (err fault)) = Unit
  Outcome writes s (s', some (ok (blocks, gone))) =
      IsAdvanced fuel wall r codec records key writes s s' blocks gone

  pub apply-IsAdvanced :
      (writes : List (Write R)) (s s' : State) (blocks : BlockMap) (gone : List Cid)
      → apply fuel wall r codec records key writes s ≡ (s', some (ok (blocks, gone)))
      → IsAdvanced fuel wall r codec records key writes s s' blocks gone
  unfolding apply next_rev
  apply-IsAdvanced writes s s' blocks gone h =
      let start : Batch = record { encoded = []; leaves = []; tree = s.repo.tree } in
      let (u, checked, h1) = >>=-ok (given (check_all records writes)) _ s s' (blocks, gone) h in
      let (batch, applied, h2) =
        >>=-ok (given (apply_all r records writes start)) _ s s' (blocks, gone) h1 in
      let (leaves, _, h3) =
        >>=-ok (given (kept batch.encoded batch.leaves)) _ s s' (blocks, gone) h2 in
      let ((tree, root, nodes), rooted, h4) =
        >>=-ok (given (on_new_reader (Blocks.unstored_blocks r batch.tree))) _ s s' (blocks, gone)
          h3 in
      let (unreached, walked, h5) =
        >>=-ok (fueled (dropped fuel r tree s.repo.tree)) _ s s' (blocks, gone) h4 in
      let (rev, minted, h6) = >>=-ok (next_rev wall s.repo.commit.rev) _ s s' (blocks, gone) h5 in
      let s1 : State = record s { clock = (mint_after wall s.clock s.repo.commit.rev).0 } in
      let (commit, signed, h7) =
        >>=-ok (given (sign codec s.repo.commit.did rev root key)) _ s1 s' (blocks, gone) h6 in
      let ((blocks', cid), put, h8) =
        >>=-ok (given (Block.add codec.encode r.cid_for commit (merge leaves nodes))) _ s1 s'
          (blocks, gone) h7 in
      subst (Outcome writes s) h8 (
        parts-IsAdvanced writes s batch tree root nodes unreached rev commit leaves blocks' cid
          (some-some (check_all records writes) u checked)
          (some-some (apply_all r records writes start) batch applied)
          (some-some (on_new_reader (Blocks.unstored_blocks r batch.tree)) (tree, root, nodes)
            rooted)
          (in_time-ok (dropped fuel r tree s.repo.tree) unreached walked)
          (ok_or-ok (mint_after wall s.clock s.repo.commit.rev).1
            (Error.no_revision_after s.repo.commit.rev.text) rev
            (some-some
              (ok_or (mint_after wall s.clock s.repo.commit.rev).1
                (Error.no_revision_after s.repo.commit.rev.text))
              rev minted))
          (some-some (sign codec s.repo.commit.did rev root key) commit signed)
          (some-some (Block.add codec.encode r.cid_for commit (merge leaves nodes)) (blocks', cid)
            put))

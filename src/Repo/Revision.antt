-- ===== src/Repo/Revision.antt =====
-- src/repo.rs: an account's repository at one revision (`Repo`), and the writes that move it to the next.
-- An operation on `&mut self` is a step on the repository and the clock, which ends with a value or an
-- error and leaves both as they are by then.
pub mod Steps
pub mod Advance
pub mod Next
mod Tests
use manapds.Prelude.{List, Option, Str, [], if◌then◌else◌, none, some, ℕ, ◌++◌, ◌+◌, ◌/◌, ◌∷◌}
use manapds.Prelude.Eq.{Str_eq}
use manapds.Prelude.Bytes.{str_eq}
use manapds.Prelude.Map.{Map, lookup, insert}
use manapds.Prelude.Result.{Result, ok, err, ok_or}
use manapds.Prelude.Result as Results
use manapds.Syntax.Did
use manapds.Syntax.Nsid
use manapds.Syntax.RecordKey
use manapds.Syntax.Tid
use manapds.Syntax.Tid.{Clock, mint, mint_after}
use manapds.Repo.{Cid, Error}
use manapds.Repo.Block
use manapds.Repo.Block.{store_of, BlockMap, Store, merge}
use manapds.Repo.Commit.{Commit, Codec, Keypair, PublicKey, sign}
use manapds.Repo.Commit
use manapds.Repo.Mst.{Mst, Reader, Leaf, empty, load}
use manapds.Repo.Mst.Find
use manapds.Repo.Mst.Blocks
use manapds.Repo.Mst.Dropped.{dropped}
use manapds.Repo.Write.{Write, Records, check_all, apply_all, on_new_reader}

pub record Repo : Type 0 where
  pub cid : Cid
  pub commit : Commit
  pub tree : Mst

pub record State : Type 0 where
  pub repo : Repo
  pub clock : Clock

-- A step; `none` is a loop out of fuel.
abbrev pub Step {ℓ} : Type ℓ → Type ℓ
Step A = State → State × Option (Result Error A)

abbrev continue {ℓ} :
    {A B : Type ℓ}
    → State × Option (Result Error A)
    → (A → Step B)
    → State × Option (Result Error B)
continue (s, none) f = (s, none)
continue (s, some (err fault)) f = (s, some (err fault))
continue (s, some (ok a)) f = f a s

infixl 5 ◌>>=◌ ◌>>◌
abbrev pub ◌>>=◌ {ℓ} : {A B : Type ℓ} → Step A → (A → Step B) → Step B
◌>>=◌ m f s = continue (m s) f

abbrev pub ◌>>◌ : {B : Type 0} → Step (Unit {0}) → Step B → Step B
m >> k = m >>= λ _. k

abbrev pub given {ℓ} : {A : Type ℓ} → Result Error A → Step A
given m s = (s, some m)

-- A result on fuel.
abbrev in_time {ℓ} : {A : Type ℓ} → Result Error (Option A) → Option (Result Error A)
in_time (err fault) = some (err fault)
in_time (ok none) = none
in_time (ok (some a)) = some (ok a)

abbrev pub fueled {ℓ} : {A : Type ℓ} → Result Error (Option A) → Step A
fueled m s = (s, in_time m)

abbrev pub this : Step Repo
this s = (s, some (ok s.repo))

-- `clock.mint_after(rev).ok_or_else(..)?`
unfoldable pub next_rev : Option ℕ → Tid.Tid → Step Tid.Tid
next_rev wall rev s =
    let (clock, tid) = mint_after wall s.clock rev in
    (record s { clock = clock }, some (ok_or tid (Error.no_revision_after rev.text)))

-- The assignments to `self`.
abbrev pub settle : Cid → Commit → Mst → Step (Unit {0})
settle cid commit tree s =
    (record s { repo = record { cid = cid; commit = commit; tree = tree } }, some (ok tt))

-- The records that the tree ends with, out of those that were encoded.
unfoldable pub kept : BlockMap → Map Str Cid → Result Error BlockMap
kept encoded [] = ok []
kept encoded ((at, cid) ∷ leaves) =
    Results.◌>>=◌ (ok_or (lookup cid encoded) (Error.missing_block cid))
      (λ bytes. Results.◌>>=◌ (kept encoded leaves) (λ blocks. ok (insert cid bytes blocks)))

abbrev pub leave : Cid → Cid → List Cid → List Cid
leave superseded cid gone = if str_eq cid superseded then gone else gone ++ (superseded ∷ [])

create_over :
    Reader
    → Codec
    → Option ℕ
    → Did.Did
    → Keypair
    → Clock
    → Result Error (Mst × Cid × BlockMap)
    → Clock × Result Error (Repo × BlockMap)
create_over r codec wall did key clock (err fault) = (clock, err fault)
create_over r codec wall did key clock (ok (tree, root, blocks)) =
    let (clock', rev) = mint wall clock in
    (
      clock',
      Results.◌>>=◌ (sign codec did rev root key) (λ commit.
          Results.◌>>=◌ (Block.add codec.encode r.cid_for commit blocks)
            (λ (blocks', cid). ok (record { cid = cid; commit = commit; tree = tree }, blocks'))),
    )

-- `Repo::create`
unfoldable pub create :
    Reader → Codec → Option ℕ → Did.Did → Keypair → Clock → Clock × Result Error (Repo × BlockMap)
unfolding create_over
create r codec wall did key clock =
    let nowhere : Reader = record r { store = store_of [] } in
    create_over r codec wall did key clock (on_new_reader (Blocks.unstored_blocks nowhere empty))

-- `Repo::load`
unfoldable pub load_repo : Codec → Store → Cid → Result Error Repo
load_repo codec store cid =
    Results.◌>>=◌ (Block.read codec.decode store cid)
      (λ commit. ok (record { cid = cid; commit = commit; tree = load commit.root }))

-- `Repo::apply`, with fuel for the walk of `dropped` and the wall clock's reading.
unfoldable pub apply :
    {R : Type 0}
    → ℕ
    → Option ℕ
    → Reader
    → Codec
    → Records R
    → Keypair
    → List (Write R)
    → Step (BlockMap × List Cid)
unfolding kept next_rev
apply fuel wall r codec records key writes = do
  given (check_all records writes)
  self ← this
  batch ←
      given (apply_all r records writes (record { encoded = []; leaves = []; tree = self.tree }))
  blocks ← given (kept batch.encoded batch.leaves)
  (tree, root, nodes) ← given (on_new_reader (Blocks.unstored_blocks r batch.tree))
  gone ← fueled (dropped fuel r tree self.tree)
  rev ← next_rev wall self.commit.rev
  commit ← given (sign codec self.commit.did rev root key)
  (blocks, cid) ← given (Block.add codec.encode r.cid_for commit (merge blocks nodes))
  settle cid commit tree
  given (ok (blocks, leave self.cid cid gone))

-- `Repo::get`, `proof`, `records` and `verify`
abbrev tree_key : Nsid.Nsid → RecordKey.RecordKey → Str
tree_key collection rkey = collection.text ++ (b'/' ∷ rkey.text)

unfoldable pub get :
    Reader → Nsid.Nsid → RecordKey.RecordKey → Repo → Result Error (Mst × Option Cid)
get r collection rkey repo = on_new_reader (Find.get r repo.tree (tree_key collection rkey))

unfoldable pub proof :
    Reader → Nsid.Nsid → RecordKey.RecordKey → Repo → Result Error (Mst × List Cid)
proof r collection rkey repo =
    on_new_reader (Find.cids_for_path r repo.tree (tree_key collection rkey))

unfoldable pub records : Reader → Repo → Result Error (Mst × List Leaf)
records r repo = on_new_reader (Find.leaves r repo.tree)

unfoldable pub verify : Codec → Repo → PublicKey → Result Error (Unit {0})
verify codec repo key = Commit.verify codec repo.commit key

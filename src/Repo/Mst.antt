-- ===== src/Repo/Mst.antt =====
-- src/repo/mst.rs: the Merkle search tree. This file has its data and the state of one traversal.
--
-- `Reader.depth` counts the levels that a frame stands under, and `descend` refuses the 257th. Here it
-- is the number of levels left: a function that descends takes it as its first argument, fails at 0 as
-- `descend` does, and passes one less to what it calls. So the recursion needs no fuel of its own.
-- `Reader.seen` is the state of the monad `Read`. A failed operation ends its traversal, and the state
-- is dropped with it. An operation on `&mut self` returns the tree with what it has loaded.
pub mod Key
pub mod Stored
pub mod Node
pub mod Layer
pub mod Find
pub mod Edit
pub mod Delete
pub mod Blocks
pub mod Items
pub mod Spot
pub mod Layered
pub mod Lookup
pub mod Shape
pub mod Split
pub mod Raise
pub mod Insert
pub mod Within
pub mod Add
pub mod Records
pub mod Taken
pub mod Update
pub mod Path
pub mod Walk
pub mod Dropped
pub mod Changed
pub mod Standing
pub mod Merged
pub mod Listed
pub mod Whole
pub mod Revised
pub mod Samples
pub mod Emptied
mod Tests
use manapds.Prelude.{List, Option, Str, [], none, some, ℕ, ◌∷◌}
use manapds.Prelude.Result.{Result, ok, err}
use manapds.Repo.{Cid, Error}
use manapds.Repo.Block.{Store}

abbrev pub depth_max : ℕ
depth_max = 256

abbrev pub key_len_max : ℕ
key_len_max = 1024

pub record TreeEntry : Type 0 where
  pub p : ℕ
  pub k : Str
  pub v : Cid
  pub t : Option Cid

pub record NodeData : Type 0 where
  pub l : Option Cid
  pub e : List TreeEntry

pub record Leaf : Type 0 where
  pub key : Str
  pub value : Cid

-- `Mst` has the fields `entries`, `layer` and `pointer`; `unread` is the `None` of `entries`.
mutual
  pub data Mst : Type 0 where
    mst : Contents → Option ℕ → Option Cid → Mst

  pub data Contents : Type 0 where
    unread : Contents
    loaded : Entries → Contents

  pub data Entries : Type 0 where
    nil : Entries
    cons : Entry → Entries → Entries

  pub data Entry : Type 0 where
    leaf : Leaf → Entry
    tree : Mst → Entry

-- The entries of a node as a list, and back.
abbrev pub to_list : Entries → List Entry
to_list nil = []
to_list (cons e es) = e ∷ to_list es

abbrev pub from_list : List Entry → Entries
from_list [] = nil
from_list (e ∷ es) = cons e (from_list es)

-- What a traversal is given: the store, and the third-party code that hashes and encodes.
pub record Reader : Type 0 where
  pub store : Store
  pub sha256 : Str → Str
  pub cid_for : Str → Cid
  pub encode : NodeData → Result Error Str
  pub decode : Str → Result Error NodeData

abbrev pub Read {ℓ} : Type ℓ → Type ℓ
Read A = List Cid → Result Error (A × List Cid)

abbrev continue {ℓ} :
    {A B : Type ℓ} → Result Error (A × List Cid) → (A → Read B) → Result Error (B × List Cid)
continue (ok (a, seen)) f = f a seen
continue (err e) f = err e

infixl 5 ◌>>=◌ ◌>>◌
abbrev pub ◌>>=◌ {ℓ} : {A B : Type ℓ} → Read A → (A → Read B) → Read B
◌>>=◌ m f seen = continue (m seen) f

abbrev pub ◌>>◌ : {B : Type 0} → Read (Unit {0}) → Read B → Read B
m >> k = m >>= λ _. k

abbrev pub pure {ℓ} : {A : Type ℓ} → A → Read A
pure a seen = ok (a, seen)

abbrev pub fail {ℓ} : {A : Type ℓ} → Error → Read A
fail e seen = err e

-- A step that leaves the state alone.
abbrev pub lift {ℓ} : {A : Type ℓ} → Result Error A → Read A
lift (ok a) seen = ok (a, seen)
lift (err e) seen = err e

-- `descend` past the last level.
abbrev pub too_deep {ℓ} : {A : Type ℓ} → Read A
too_deep = fail (Error.malformed_node "a tree deeper than its keys allow")

abbrev pub empty : Mst
empty = mst (loaded nil) none none

abbrev pub load : Cid → Mst
load root = mst unread none (some root)

abbrev pub from_entries : List Entry → Option ℕ → Mst
from_entries entries layer = mst (loaded (from_list entries)) layer none

abbrev pub layer_of : Mst → Option ℕ
layer_of (mst _ layer _) = layer

abbrev pub pointer_of : Mst → Option Cid
pointer_of (mst _ _ pointer) = pointer

-- ===== src/Repo/Write.antt =====
-- src/repo.rs: the writes of one commit (`Write`), checked and carried out on the tree in order, each
-- encoded on the way. A record is third-party data, and how it is encoded and what it says of its
-- collection are arguments. Signing the commit and storing the blocks are not here.
pub mod Puts
mod Tests
use manapds.Prelude.{List, Option, [], some, ◌++◌, Bool, if◌then◌else◌, none, ◌∷◌, true, false}
use manapds.Prelude.Bytes.{Str, str_eq}
use manapds.Prelude.Eq.{Str_eq}
use manapds.Prelude.Map.{Map, insert, remove}
use manapds.Prelude.Result.{Result, ok, err, ◌>>=◌, ◌>>◌}
use manapds.Syntax.Nsid
use manapds.Syntax.RecordKey
use manapds.Repo.{Cid, Error}
use manapds.Repo.Block
use manapds.Repo.Block.{BlockMap}
use manapds.Repo.Mst.{Mst, Reader, Read}
use manapds.Repo.Mst.Find
use manapds.Repo.Mst.Edit
use manapds.Repo.Mst.Delete

pub data Write (R : Type 0) : Type 0 where
  create : Nsid.Nsid → RecordKey.RecordKey → R → Write R
  update : Nsid.Nsid → RecordKey.RecordKey → R → Write R
  put : Nsid.Nsid → RecordKey.RecordKey → R → Write R
  delete : Nsid.Nsid → RecordKey.RecordKey → Write R

-- What the third-party code says of a record: `none` where it is no map, and in a map the text under
-- `$type`, where there is a text.
pub record Records (R : Type 0) : Type 0 where
  pub encode : R → Result Error Str
  pub named : R → Option (Option Str)

-- What the loop of `apply` carries.
pub record Batch : Type 0 where
  pub encoded : BlockMap
  pub leaves : Map Str Cid
  pub tree : Mst

abbrev names : Str → Option (Option Str) → Bool
names collection none = true
names collection (some none) = false
names collection (some (some named)) = str_eq named collection

-- An operation of the tree is on a reader of its own.
abbrev pub on_new_reader {ℓ} : {A : Type ℓ} → Read A → Result Error A
on_new_reader m = do (a, _) ← m []; ok a

unfoldable pub put_in : Reader → Str → Mst → Cid → Result Error Mst
put_in r at tree cid = do
  (tree, found) ← on_new_reader (Find.get r tree at)
  elim found [
    | some _ ↦ on_new_reader (Edit.update r tree at cid)
    | none ↦ on_new_reader (Edit.add r tree at cid)
  ]

module _ {R : Type 0} where
  unfoldable pub target : Write R → Nsid.Nsid × RecordKey.RecordKey
  target (create collection rkey record_of) = (collection, rkey)
  target (update collection rkey record_of) = (collection, rkey)
  target (put collection rkey record_of) = (collection, rkey)
  target (delete collection rkey) = (collection, rkey)

  unfoldable pub record_in : Write R → Option R
  record_in (create collection rkey record_of) = some record_of
  record_in (update collection rkey record_of) = some record_of
  record_in (put collection rkey record_of) = some record_of
  record_in (delete collection rkey) = none

  unfoldable pub key : Write R → Str
  key write = let (collection, rkey) = target write in collection.text ++ b'/' ∷ rkey.text

  -- The check on one write: a record that is a map names the collection it is in.
  unfoldable pub check_record : Records R → Str → Option R → Result Error (Unit {0})
  check_record records collection none = ok tt
  check_record records collection (some record_of) =
      if names collection (records.named record_of)
      then ok tt
      else err (Error.not_record_data "a record that names no collection")

  unfoldable pub check_all : Records R → List (Write R) → Result Error (Unit {0})
  check_all records [] = ok tt
  check_all records (write ∷ writes) = do
    check_record records (target write).0.text (record_in write)
    check_all records writes

  -- `encoded.add` and `leaves.insert`, and then the tree.
  unfoldable pub encode_then :
      Reader → Records R → Str → R → (Mst → Cid → Result Error Mst) → Batch → Result Error Batch
  encode_then r records at record_of then_tree batch = do
    (encoded, cid) ← Block.add records.encode r.cid_for record_of batch.encoded
    tree ← then_tree batch.tree cid
    ok (record { encoded = encoded; leaves = insert at cid batch.leaves; tree = tree })

  unfoldable pub apply_one : Reader → Records R → Write R → Batch → Result Error Batch
  apply_one r records (create collection rkey record_of) batch =
      let at = key (create collection rkey record_of) in
      encode_then r records at record_of (λ tree cid. on_new_reader (Edit.add r tree at cid)) batch
  apply_one r records (update collection rkey record_of) batch =
      let at = key (update collection rkey record_of) in
      encode_then r records at record_of (λ tree cid. on_new_reader (Edit.update r tree at cid))
        batch
  apply_one r records (put collection rkey record_of) batch =
      let at = key (put collection rkey record_of) in
      encode_then r records at record_of (put_in r at) batch
  apply_one r records (delete collection rkey) batch =
      let write : Write R = delete collection rkey in
      let at = key write in
      do
        tree ← on_new_reader (Delete.delete r batch.tree at)
        ok (record batch { leaves = remove at batch.leaves; tree = tree })

  unfoldable pub apply_all : Reader → Records R → List (Write R) → Batch → Result Error Batch
  apply_all r records [] batch = ok batch
  apply_all r records (write ∷ writes) batch = do
    batch ← apply_one r records write batch
    apply_all r records writes batch

  unfoldable pub apply : Reader → Records R → List (Write R) → Mst → Result Error Batch
  apply r records writes tree = do
    check_all records writes
    apply_all r records writes (record { encoded = []; leaves = []; tree = tree })

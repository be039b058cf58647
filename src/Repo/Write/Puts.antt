-- ===== src/Repo/Write/Puts.antt =====
-- Puts, one after another: none is refused, and a later one to the same key takes the place of an earlier.
use manapds.Prelude.{
  ◌∷◌, [], refl, none, inl, inr, List, ◌≡◌, All, Option, if◌then◌else◌, map, some, Option-cases, ap,
  ◌∙◌,
}
use manapds.Prelude.Bytes.{Str, str_eq}
use manapds.Prelude.Result.{Result, ok, err}
use manapds.Syntax.Nsid
use manapds.Syntax.RecordKey
use manapds.Repo.{Cid, Error}
use manapds.Prelude.Map.{insert}
use manapds.Prelude.Eq.{Str_eq}
use manapds.Repo.Block
use manapds.Repo.Mst.{Mst, Reader}
use manapds.Repo.Mst.Key.{leading_zeros, ensure_valid_key}
use manapds.Repo.Mst.Items.{items, lookup_leaf}
use manapds.Repo.Mst.Insert.{record_at}
use manapds.Repo.Mst.Records.{lookup_leaf-insert_leaf, lookup_leaf-replace_leaf}
use manapds.Repo.Mst.Path.{ensure_valid_key-write}
use manapds.Repo.Mst.Revised.{update-Updated}
use manapds.Repo.Mst.Whole.{IsTree, IsDigest, add-Added, get-lookup_leaf}
use manapds.Repo.Write.{
  target, target, Write, put, Records, Batch, key, put_in, encode_then, apply_one, apply_all,
}

-- On a whole tree a put of a valid key succeeds, whether the key is taken or not.
put_in-whole :
    (r : Reader) (at : Str) (m : Mst) (cid : Cid)
    → IsDigest r.sha256
    → IsTree (leading_zeros r.sha256) m
    → ensure_valid_key at ≡ ok tt
    → (m' : Mst) × (put_in r at m cid ≡ ok m')
      × IsTree (leading_zeros r.sha256) m'
      × ((other : Str)
          → lookup_leaf other (items m')
            ≡ (if str_eq at other then some cid else lookup_leaf other (items m)))
unfolding put_in
put_in-whole r at m cid digest h valid = elim (Option-cases (lookup_leaf at (items m))) [
  | inl absent ↦
      let (grown, runs, whole, same) = add-Added r m at cid digest h valid absent in
      (
        grown,
        rw (get-lookup_leaf r m at h) (rw absent (rw runs refl)),
        whole,
        λ other.
            ap (lookup_leaf other) same
            ∙ lookup_leaf-insert_leaf other (record_at at cid) (items m) absent,
      )
  | inr found ↦
      let (changed, runs, whole, same) = update-Updated r m at cid (found.0) h valid (found.1) in
      (
        changed,
        rw (get-lookup_leaf r m at h) (rw (found.1) (rw runs refl)),
        whole,
        λ other.
            ap (lookup_leaf other) same
            ∙ lookup_leaf-replace_leaf other (record_at at cid) (items m) (found.0) (found.1),
      )
]

-- One put: a collection, a record key, and a record.
pub record Put (R : Type 0) : Type 0 where
  pub collection : Nsid.Nsid
  pub rkey : RecordKey.RecordKey
  pub content : R

module _ {R : Type 0} where
  abbrev pub as_write : Put R → Write R
  as_write p = put p.collection p.rkey p.content

  -- The two identifiers came of parsing, and the record encodes.
  pub record IsPut (records : Records R) (p : Put R) : Type 0 where
    pub collection_parsed : Nsid.parse p.collection.text ≡ ok p.collection
    pub rkey_parsed : RecordKey.parse p.rkey.text ≡ ok p.rkey
    pub bytes : Str
    pub encodes : records.encode p.content ≡ ok bytes

  -- What stands under a key behind the puts: the last of those to it, and else what stood there before.
  abbrev pub last_put : Reader → Records R → Str → List (Put R) → Option Cid → Option Cid
  last_put r records other [] before = before
  last_put r records other (p ∷ ps) before =
      last_put r records other ps
        (if str_eq (key (as_write p)) other then cid_of (records.encode p.content) else before)
    where
      cid_of : Result Error Str → Option Cid
      cid_of (ok bytes) = some (r.cid_for bytes)
      cid_of (err _) = none

  -- With digests of 32 bytes, any number of puts, to keys of identifiers that parsed and of records
  -- that encode, are all carried out on a whole tree. The tree that comes of them is whole, and
  -- under every key it holds the record of the last put to that key, or what it held before where
  -- no put was to it.
  pub apply_all-puts :
      (r : Reader) (records : Records R) (ps : List (Put R)) (batch : Batch)
      → IsDigest r.sha256
      → IsTree (leading_zeros r.sha256) batch.tree
      → All (IsPut records) ps
      → (done : Batch) × (apply_all r records (map as_write ps) batch ≡ ok done)
        × IsTree (leading_zeros r.sha256) done.tree
        × ((other : Str)
            → lookup_leaf other (items done.tree)
              ≡ last_put r records other ps (lookup_leaf other (items batch.tree)))
  unfolding apply_all apply_one encode_then key Block.add target
  apply_all-puts r records [] batch digest h ok_all = (batch, refl, h, λ other. refl)
  apply_all-puts r records (p ∷ ps) batch digest h ok_all =
      let q = ok_all.0 in
      let at : Str = key (as_write p) in
      let cid : Cid = r.cid_for q.bytes in
      let valid =
        ensure_valid_key-write p.collection.text p.rkey.text p.collection p.rkey q.collection_parsed
          q.rkey_parsed in
      let (tree, runs, whole, found) = put_in-whole r at batch.tree cid digest h valid in
      let next : Batch = record {
        encoded = insert cid (q.bytes) batch.encoded;
        leaves = insert at cid batch.leaves;
        tree = tree;
      } in
      let (done, rest, done_whole, done_found) =
        apply_all-puts r records ps next digest whole (ok_all.1) in
      (
        done,
        rw (q.encodes) (rw runs rest),
        done_whole,
        λ other. rw (q.encodes) (done_found other ∙ ap (last_put r records other ps) (found other)),
      )

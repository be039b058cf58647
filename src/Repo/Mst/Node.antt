-- ===== src/Repo/Mst/Node.antt =====
-- src/repo/mst.rs: one node. How it is read in and written out, its CID, and where a key falls in it.
use manapds.Prelude.{
  Bool, List, Option, Str, [], drop, false, if◌then◌else◌, none, not, some, suc, zero, ℕ, ◌||◌, ◌∷◌,
}
use manapds.Prelude.Eq.{Str_eq}
use manapds.Prelude.Bytes.{str_eq, str_lt}
use manapds.Prelude.Result.{err}
use manapds.Repo.{Cid, Error}
use manapds.Repo.Block.{read}
use manapds.Repo.Mst.{
  TreeEntry, NodeData, Mst, mst, unread, loaded, Entry, leaf, tree, to_list, from_list, Reader,
  Read, ◌>>=◌, ◌>>◌, pure, fail, lift, too_deep,
}
use manapds.Repo.Mst.Stored.{deserialize}
use manapds.Repo.Mst.Key.{leading_zeros, shared_prefix, ensure_valid_key}

unfoldable pub is_seen : Cid → List Cid → Bool
is_seen cid [] = false
is_seen cid (c ∷ cs) = str_eq cid c || is_seen cid cs

-- `Reader::node`
unfoldable pub node : Reader → Cid → Read NodeData
node r cid seen =
    if is_seen cid seen
    then err (Error.malformed_node "a node under itself")
    else lift (read r.decode r.store cid) (cid ∷ seen)

abbrev pub first_layer : (Str → Str) → List TreeEntry → Option ℕ
first_layer sha256 [] = none
first_layer sha256 (entry ∷ _) = some (leading_zeros sha256 entry.k)

unfoldable pub fill : Reader → Mst → Read Mst
fill r (mst (loaded es) layer pointer) = pure (mst (loaded es) layer pointer)
fill r (mst unread layer none) = fail (Error.malformed_node "a node with neither contents nor CID")
fill r (mst unread layer (some cid)) = do
  stored ← node r cid
  es ← lift (deserialize stored (first_layer r.sha256 stored.e))
  pure (mst (loaded (from_list es)) layer (some cid))

-- The list of a node that has been read in.
abbrev pub held : Mst → List Entry
held (mst unread _ _) = []
held (mst (loaded es) _ _) = to_list es

abbrev pub with_held : List Entry → Mst → Mst
with_held es (mst _ layer pointer) = mst (loaded (from_list es)) layer pointer

abbrev pub with_layer : Option ℕ → Mst → Mst
with_layer layer (mst es _ pointer) = mst es layer pointer

abbrev pub with_pointer : Option Cid → Mst → Mst
with_pointer pointer (mst es layer _) = mst es layer pointer

abbrev pub leaf_at_or_above : Str → Entry → Bool
leaf_at_or_above key (leaf a) = not (str_lt a.key key)
leaf_at_or_above key (tree _) = false

-- `position`, or the length.
unfoldable pub position_of : Str → List Entry → ℕ
position_of key [] = 0
position_of key (e ∷ es) = if leaf_at_or_above key e then 0 else suc (position_of key es)

-- `index_of`, with the node read in.
unfoldable pub index_of : Reader → Mst → Str → Read (Mst × ℕ)
index_of r m key = do m ← fill r m; pure (m, position_of key (held m))

-- The loop of `serialize`, from the key before; each subtree's CID is settled on the way.
unfoldable pub serialize_from :
    (Mst → Read (Mst × Cid)) → Str → List Entry → Read (List Entry × List TreeEntry)
serialize_from root last [] = pure ([], [])
serialize_from root last (tree m ∷ es) = fail (Error.malformed_node "two subtrees side by side")
serialize_from root last (leaf a ∷ tree m ∷ es) = do
  (m', cid) ← root m
  lift (ensure_valid_key a.key)
  let p = shared_prefix last a.key
  (es', stored) ← serialize_from root a.key es
  pure (
    leaf a ∷ tree m' ∷ es',
    record { p = p; k = drop p a.key; v = a.value; t = some cid } ∷ stored,
  )
serialize_from root last (leaf a ∷ es) = do
  lift (ensure_valid_key a.key)
  let p = shared_prefix last a.key
  (es', stored) ← serialize_from root a.key es
  pure (leaf a ∷ es', record { p = p; k = drop p a.key; v = a.value; t = none } ∷ stored)

unfoldable pub serialize : (Mst → Read (Mst × Cid)) → List Entry → Read (List Entry × NodeData)
serialize root (tree m ∷ es) = do
  (m', cid) ← root m
  (es', stored) ← serialize_from root [] es
  pure (tree m' ∷ es', record { l = some cid; e = stored })
serialize root es = do
  (es', stored) ← serialize_from root [] es
  pure (es', record { l = none; e = stored })

unfoldable pub node_data : (Mst → Read (Mst × Cid)) → Reader → Mst → Read (Mst × NodeData)
node_data root r m = do
  m ← fill r m
  (es, stored) ← serialize root (held m)
  pure (with_held es m, stored)

-- The CID of a node with no pointer, which is then kept.
unfoldable pub hash_node : (Mst → Read (Mst × Cid)) → Reader → Mst → Read (Mst × Cid)
hash_node root r m = do
  (m, stored) ← node_data root r m
  bytes ← lift (r.encode stored)
  pure (with_pointer (some (r.cid_for bytes)) m, r.cid_for bytes)

unfoldable pub root_in : ℕ → Reader → Mst → Read (Mst × Cid)
root_in zero r m = too_deep
root_in (suc n) r (mst es layer (some cid)) = pure (mst es layer (some cid), cid)
root_in (suc n) r (mst es layer none) = hash_node (root_in n r) r (mst es layer none)

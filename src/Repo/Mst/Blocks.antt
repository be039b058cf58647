-- ===== src/Repo/Mst/Blocks.antt =====
-- src/repo/mst.rs: `root` and `unstored_blocks`, the blocks that a tree still has to write.
use manapds.Prelude.{List, [], if◌then◌else◌, suc, zero, ℕ, ◌∷◌}
use manapds.Prelude.Eq.{Str_eq}
use manapds.Repo.{Cid}
use manapds.Repo.Block.{BlockMap, merge}
use manapds.Repo.Block
use manapds.Repo.Mst.{Mst, Entry, leaf, tree, Reader, Read, ◌>>=◌, pure, lift, too_deep, depth_max}
use manapds.Repo.Mst.Node.{fill, held, with_held, root_in, node_data}

unfoldable pub root : Reader → Mst → Read (Mst × Cid)
root r m = root_in depth_max r m

-- The loop over the entries, with the blocks gathered so far.
unfoldable pub unstored_entries :
    (Mst → Read (Mst × Cid × BlockMap)) → BlockMap → List Entry → Read (List Entry × BlockMap)
unstored_entries unstored blocks [] = pure ([], blocks)
unstored_entries unstored blocks (leaf a ∷ es) = do
  (es, blocks) ← unstored_entries unstored blocks es
  pure (leaf a ∷ es, blocks)
unstored_entries unstored blocks (tree m ∷ es) = do
  (m, cid, under) ← unstored m
  (es, blocks) ← unstored_entries unstored (merge blocks under) es
  pure (tree m ∷ es, blocks)

unfoldable pub unstored_blocks_in : ℕ → Reader → Mst → Read (Mst × Cid × BlockMap)
unstored_blocks_in zero r m = too_deep
unstored_blocks_in (suc n) r m = do
  (m, cid) ← root_in n r m
  stored ← lift (r.store.contains cid)
  if stored then pure (m, cid, []) else do
    (m, data_of) ← node_data (root_in n r) r m
    (blocks, _) ← lift (Block.add r.encode r.cid_for data_of [])
    m ← fill r m
    (es, blocks) ← unstored_entries (unstored_blocks_in n r) blocks (held m)
    pure (with_held es m, cid, blocks)

unfoldable pub unstored_blocks : Reader → Mst → Read (Mst × Cid × BlockMap)
unstored_blocks r m = unstored_blocks_in depth_max r m

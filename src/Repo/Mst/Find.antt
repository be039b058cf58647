-- ===== src/Repo/Mst/Find.antt =====
-- src/repo/mst.rs: the operations that only read: `get`, `cids_for_path` and `leaves`.
use manapds.Prelude.{
  set, List, Option, Str, [], get_elem?, if◌then◌else◌, none, some, suc, zero, ℕ, ◌++◌, ◌∷◌,
}
use manapds.Prelude.Bytes.{str_eq}
use manapds.Repo.{Cid}
use manapds.Repo.Mst.{Leaf, Mst, Entry, leaf, tree, Reader, Read, ◌>>=◌, pure, too_deep, depth_max}
use manapds.Repo.Mst.Node.{fill, held, with_held, index_of, root_in}

-- The record at `index`, if it is the key's.
abbrev pub value_of : Str → Option Entry → Option Cid
value_of key (some (leaf a)) = if str_eq a.key key then some a.value else none
value_of key (some (tree _)) = none
value_of key none = none

abbrev pub placed : ℕ → Option Entry → Option (ℕ × Mst)
placed i (some (tree m)) = some (i, m)
placed i (some (leaf _)) = none
placed i none = none

-- The subtree just before `index`, with its place.
abbrev pub tree_before : ℕ → List Entry → Option (ℕ × Mst)
tree_before zero es = none
tree_before (suc i) es = placed i (get_elem? es i)

-- Puts back the subtree at `i`.
abbrev pub put_back : Mst → ℕ → Mst → Mst
put_back m i subtree = with_held (set (held m) i (tree subtree)) m

unfoldable pub get_under :
    (Mst → Read (Mst × Option Cid)) → Mst → Option (ℕ × Mst) → Read (Mst × Option Cid)
get_under get m none = pure (m, none)
get_under get m (some (i, subtree)) = do
  (subtree, found) ← get subtree
  pure (put_back m i subtree, found)

unfoldable pub get_here :
    (Mst → Read (Mst × Option Cid)) → Mst → ℕ → Option Cid → Read (Mst × Option Cid)
get_here get m index (some value) = pure (m, some value)
get_here get m index none = get_under get m (tree_before index (held m))

-- `index_of` has read the node in.
unfoldable pub get_in : ℕ → Reader → Mst → Str → Read (Mst × Option Cid)
get_in zero r m key = too_deep
get_in (suc n) r m key = do
  (m, index) ← index_of r m key
  get_here (λ subtree. get_in n r subtree key) m index (value_of key (get_elem? (held m) index))

-- `get`, on a new reader.
unfoldable pub get : Reader → Mst → Str → Read (Mst × Option Cid)
get r m key = get_in depth_max r m key

unfoldable pub path_under :
    (Mst → Read (Mst × List Cid)) → Mst → Option (ℕ × Mst) → Read (Mst × List Cid)
path_under path m none = pure (m, [])
path_under path m (some (i, subtree)) = do
  (subtree, cids) ← path subtree
  pure (put_back m i subtree, cids)

unfoldable pub path_here :
    (Mst → Read (Mst × List Cid)) → Mst → ℕ → Option Cid → Read (Mst × List Cid)
path_here path m index (some value) = pure (m, value ∷ [])
path_here path m index none = path_under path m (tree_before index (held m))

unfoldable pub cids_for_path_in : ℕ → Reader → Mst → Str → Read (Mst × List Cid)
cids_for_path_in zero r m key = too_deep
cids_for_path_in (suc n) r m key = do
  (m, cid) ← root_in n r m
  (m, index) ← index_of r m key
  (m, cids) ←
      path_here (λ subtree. cids_for_path_in n r subtree key) m index
        (value_of key (get_elem? (held m) index))
  pure (m, cid ∷ cids)

unfoldable pub cids_for_path : Reader → Mst → Str → Read (Mst × List Cid)
cids_for_path r m key = cids_for_path_in depth_max r m key

-- The loop of `collect_leaves`.
unfoldable pub collect_entries :
    (Mst → Read (Mst × List Leaf)) → List Entry → Read (List Entry × List Leaf)
collect_entries collect [] = pure ([], [])
collect_entries collect (leaf a ∷ es) = do
  (es, found) ← collect_entries collect es
  pure (leaf a ∷ es, a ∷ found)
collect_entries collect (tree m ∷ es) = do
  (m, under) ← collect m
  (es, found) ← collect_entries collect es
  pure (tree m ∷ es, under ++ found)

unfoldable pub collect_leaves : ℕ → Reader → Mst → Read (Mst × List Leaf)
collect_leaves zero r m = too_deep
collect_leaves (suc n) r m = do
  m ← fill r m
  (es, found) ← collect_entries (collect_leaves n r) (held m)
  pure (with_held es m, found)

unfoldable pub leaves : Reader → Mst → Read (Mst × List Leaf)
leaves r m = collect_leaves depth_max r m

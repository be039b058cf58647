-- ===== src/Repo/Mst/Delete.antt =====
-- src/repo/mst.rs: `delete`, which merges the subtrees either side of a leaf and trims the top.
use manapds.Prelude.{
  set, remove_at, List, Option, Str, [], drop, get_elem?, if◌then◌else◌, none, not, some, suc, take,
  zero, ℕ, ◌++◌, ◌-◌, ◌==◌, ◌∷◌,
}
use manapds.Prelude.Result.{ok, err}
use manapds.Repo.{missing_block, Cid, Error}
use manapds.Repo.Mst.{
  Mst, Entry, tree, Reader, Read, ◌>>=◌, pure, fail, too_deep, depth_max, from_entries, layer_of,
}
use manapds.Repo.Mst.Node.{fill, held, index_of}
use manapds.Repo.Mst.Layer.{layer}
use manapds.Repo.Mst.Find.{value_of, tree_before, placed}

-- The entries of both nodes, with the two subtrees that meet merged into one.
unfoldable pub join : (Mst → Mst → Read Mst) → List Entry → List Entry → Read (List Entry)
join merge [] right = pure right
join merge (tree a ∷ []) (tree b ∷ right) = do m ← merge a b; pure (tree m ∷ right)
join merge (e ∷ []) right = pure (e ∷ right)
join merge (e ∷ f ∷ left) right = do es ← join merge (f ∷ left) right; pure (e ∷ es)

abbrev different_layers : Error
different_layers = Error.malformed_node "merged two nodes from different layers"

unfoldable pub append_merge : ℕ → Reader → Mst → Mst → Read Mst
append_merge zero r m other = too_deep
append_merge (suc n) r m other = do
  (m, here) ← layer n r m
  (other, there) ← layer n r other
  if not (here == there) then fail different_layers else do
    m ← fill r m
    other ← fill r other
    es ← join (append_merge n r) (held m) (held other)
    pure (from_entries es (layer_of m))

-- The two subtrees either side of `index`.
abbrev pub between : ℕ → List Entry → Option (Mst × Mst)
between index es = elim (tree_before index es) [
  | none ↦ none
  | some (i, left) ↦ elim (placed index (get_elem? es (suc index))) [
    | none ↦ none
    | some (j, right) ↦ some (left, right)
  ]
]

abbrev pub minus_one : ℕ → ℕ
minus_one n = n - 1

unfoldable pub delete_leaf :
    (Mst → Mst → Read Mst) → List Entry → ℕ → Option ℕ → Option (Mst × Mst) → Read Mst
delete_leaf merge es index layer none = pure (from_entries (remove_at es index) layer)
delete_leaf merge es index layer (some (left, right)) = do
  merged ← merge left right
  pure (from_entries (take (minus_one index) es ++ tree merged ∷ drop (suc (suc index)) es) layer)

-- A subtree that has become empty is left out.
unfoldable pub put_shrunk : List Entry → ℕ → Mst → List Entry
put_shrunk es i shrunk = elim (held shrunk) [ [] ↦ remove_at es i | _ ∷ _ ↦ set es i (tree shrunk) ]

unfoldable pub delete_under :
    Reader → (Mst → Read Mst) → Str → List Entry → Option ℕ → Option (ℕ × Mst) → Read Mst
delete_under r delete key es layer none = fail (Error.key_missing key)
delete_under r delete key es layer (some (i, subtree)) = do
  shrunk ← delete subtree
  shrunk ← fill r shrunk
  pure (from_entries (put_shrunk es i shrunk) layer)

unfoldable pub delete_here :
    Reader → (Mst → Read Mst) → (Mst → Mst → Read Mst) → Str → Mst → ℕ → Option Cid → Read Mst
delete_here r delete merge key m index (some _) =
    delete_leaf merge (held m) index (layer_of m) (between index (held m))
delete_here r delete merge key m index none =
    delete_under r delete key (held m) (layer_of m) (tree_before index (held m))

unfoldable pub delete_recurse : ℕ → Reader → Mst → Str → Read Mst
delete_recurse zero r m key = too_deep
delete_recurse (suc n) r m key = do
  (m, index) ← index_of r m key
  delete_here r (λ subtree. delete_recurse n r subtree key) (append_merge n r) key m index
      (value_of key (get_elem? (held m) index))

abbrev pub lone_tree : List Entry → Option Mst
lone_tree (tree m ∷ []) = some m
lone_tree _ = none

unfoldable pub trim_filled : (Mst → Read Mst) → Mst → Option Mst → Read Mst
trim_filled trim m none = pure m
trim_filled trim m (some subtree) = trim subtree

-- A top whose block is missing cannot be trimmed. (`seen` is not read again behind it.)
unfoldable pub trim_top : ℕ → Reader → Mst → Read Mst
trim_top zero r m = too_deep
trim_top (suc n) r m = λ seen. elim (fill r m seen) [
  | ok (m', seen') ↦ trim_filled (trim_top n r) m' (lone_tree (held m')) seen'
  | err e ↦ elim e [ missing_block _ ↦ ok (m, seen) | other ↦ err other ]
]

unfoldable pub delete : Reader → Mst → Str → Read Mst
delete r m key = do m ← delete_recurse depth_max r m key; trim_top depth_max r m

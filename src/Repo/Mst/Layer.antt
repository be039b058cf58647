-- ===== src/Repo/Mst/Layer.antt =====
-- src/repo/mst.rs: the layer of a node, from the first key in it or under it.
use manapds.Prelude.{List, Option, Str, [], none, some, suc, zero, ℕ, ◌∷◌}
use manapds.Repo.Mst.{Mst, mst, Entry, leaf, tree, Reader, Read, ◌>>=◌, pure, too_deep}
use manapds.Repo.Mst.Key.{leading_zeros}
use manapds.Repo.Mst.Node.{fill, held, with_held, with_layer}

-- The layer that the first leaf of a node gives away.
unfoldable pub leaf_layer : (Str → Str) → List Entry → Option ℕ
leaf_layer sha256 [] = none
leaf_layer sha256 (leaf a ∷ es) = some (leading_zeros sha256 a.key)
leaf_layer sha256 (tree _ ∷ es) = leaf_layer sha256 es

-- The loop over the subtrees, which stops at the first that knows its layer.
unfoldable pub subtree_layer :
    (Mst → Read (Mst × Option ℕ)) → List Entry → Read (List Entry × Option ℕ)
subtree_layer find [] = pure ([], none)
subtree_layer find (leaf a ∷ es) = do
  (es', layer) ← subtree_layer find es
  pure (leaf a ∷ es', layer)
subtree_layer find (tree m ∷ es) = do
  (m', under) ← find m
  elim under [
    | some n ↦ pure (tree m' ∷ es, some (suc n))
    | none ↦ do (es', layer) ← subtree_layer find es; pure (tree m' ∷ es', layer)
  ]

abbrev pub search_layer :
    (Mst → Read (Mst × Option ℕ)) → Option ℕ → List Entry → Read (List Entry × Option ℕ)
search_layer find (some n) es = pure (es, some n)
search_layer find none es = subtree_layer find es

unfoldable pub find_layer : ℕ → Reader → Mst → Read (Mst × Option ℕ)
find_layer zero r m = too_deep
find_layer (suc n) r (mst es (some layer) pointer) = pure (mst es (some layer) pointer, some layer)
find_layer (suc n) r (mst es none pointer) = do
  m ← fill r (mst es none pointer)
  (es, layer) ← search_layer (find_layer n r) (leaf_layer r.sha256 (held m)) (held m)
  pure (with_layer layer (with_held es m), layer)

abbrev pub or_zero : Option ℕ → ℕ
or_zero none = 0
or_zero (some n) = n

-- `layer`, which remembers what it found.
unfoldable pub layer : ℕ → Reader → Mst → Read (Mst × ℕ)
layer n r m = do
  (m, found) ← find_layer n r m
  pure (with_layer (some (or_zero found)) m, or_zero found)

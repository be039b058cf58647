-- ===== src/Repo/Mst/Edit.antt =====
-- src/repo/mst.rs: `add` and `update`, with the split of a subtree that spans the key.
use manapds.Prelude.{
  set, Bool, List, Option, Str, [], drop, false, get_elem?, if◌then◌else◌, ltb, none, some, suc,
  take, true, zero, ℕ, ◌++◌, ◌+◌, ◌-◌, ◌∷◌,
}
use manapds.Prelude.Result.{Result, ok, err}
use manapds.Repo.{Cid, Error}
use manapds.Repo.Mst.{
  Mst, Entry, leaf, tree, Reader, Read, ◌>>=◌, ◌>>◌, pure, fail, lift, too_deep, depth_max,
  from_entries, layer_of,
}
use manapds.Repo.Mst.Key.{leading_zeros, ensure_valid_key}
use manapds.Repo.Mst.Node.{held, index_of}
use manapds.Repo.Mst.Layer.{layer}
use manapds.Repo.Mst.Find.{value_of, tree_before}

-- The last entry, where it is a subtree, and the entries before it.
unfoldable pub pop_tree : List Entry → Option (List Entry × Mst)
pop_tree [] = none
pop_tree (tree m ∷ []) = some ([], m)
pop_tree (leaf a ∷ []) = none
pop_tree (e ∷ f ∷ es) = elim (pop_tree (f ∷ es)) [
  | none ↦ none
  | some (front, m) ↦ some (e ∷ front, m)
]

abbrev pub tree_of : Option Mst → List Entry
tree_of none = []
tree_of (some m) = tree m ∷ []

-- `(!entries.is_empty()).then(…)`
abbrev pub node_of : List Entry → Option ℕ → Option Mst
node_of [] layer = none
node_of (e ∷ es) layer = some (from_entries (e ∷ es) layer)

unfoldable pub split_last :
    (Mst → Read (Option Mst × Option Mst))
    → Option ℕ
    → List Entry
    → List Entry
    → Option (List Entry × Mst)
    → Read (Option Mst × Option Mst)
split_last split layer left right none = pure (node_of left layer, node_of right layer)
split_last split layer left right (some (front, subtree)) = do
  (below, above) ← split subtree
  pure (node_of (front ++ tree_of below) layer, node_of (tree_of above ++ right) layer)

unfoldable pub split_around : ℕ → Reader → Mst → Str → Read (Option Mst × Option Mst)
split_around zero r m key = too_deep
split_around (suc n) r m key = do
  (m, index) ← index_of r m key
  let left = take index (held m)
  split_last (λ subtree. split_around n r subtree key) (layer_of m) left (drop index (held m))
      (pop_tree left)

unfoldable pub into_parent : Mst → Result Error Mst
into_parent m = elim (layer_of m) [
  | none ↦ err (Error.malformed_node "raised a node of unknown layer")
  | some n ↦ ok (from_entries (tree m ∷ []) (some (n + 1)))
]

-- The rounds of the loop in `insert`, for one of the two halves.
unfoldable pub raise : ℕ → Option Mst → Read (Option Mst)
raise zero half = pure half
raise (suc k) none = pure none
raise (suc k) (some m) = do m ← lift (into_parent m); raise k (some m)

abbrev pub new_leaf : Str → Cid → Entry
new_leaf key value = leaf (record { key = key; value = value })

unfoldable pub insert_above : ℕ → Reader → Mst → Str → Cid → ℕ → ℕ → Read Mst
insert_above n r m key value zeros layer = do
  (left, right) ← split_around n r m key
  left ← raise (zeros - layer - 1) left
  right ← raise (zeros - layer - 1) right
  pure (from_entries (tree_of left ++ new_leaf key value ∷ tree_of right) (some zeros))

-- Under the subtree to the left, or under a new one.
unfoldable pub insert_below : (Mst → Read Mst) → List Entry → ℕ → ℕ → Option (ℕ × Mst) → Read Mst
insert_below insert es index layer (some (i, subtree)) = do
  grown ← insert subtree
  pure (from_entries (set es i (tree grown)) (some layer))
insert_below insert es index layer none = do
  grown ← insert (from_entries [] (some (layer - 1)))
  pure (from_entries (take index es ++ tree grown ∷ drop index es) (some layer))

-- The leaf goes between the two halves of a subtree that spans the key, and else at its place.
unfoldable pub insert_here :
    (Mst → Read (Option Mst × Option Mst))
    → List Entry
    → ℕ
    → ℕ
    → Entry
    → Option (ℕ × Mst)
    → Read Mst
insert_here split es index layer new (some (i, subtree)) = do
  (left, right) ← split subtree
  pure (
      from_entries (take i es ++ (tree_of left ++ new ∷ (tree_of right ++ drop (suc i) es)))
        (some layer))
insert_here split es index layer new none =
    pure (from_entries (take index es ++ new ∷ drop index es) (some layer))

abbrev is_some {ℓ} : {A : Type ℓ} → Option A → Bool
is_some none = false
is_some (some _) = true

-- The second half of `insert`: the key belongs at this layer or under it.
unfoldable pub insert_within :
    (Mst → Read Mst)
    → (Mst → Read (Option Mst × Option Mst))
    → Mst
    → ℕ
    → Str
    → Cid
    → ℕ
    → ℕ
    → Read Mst
unfolding insert_below insert_here
insert_within insert split m index key value zeros layer =
    if ltb zeros layer
    then insert_below insert (held m) index layer (tree_before index (held m))
    else if is_some (value_of key (get_elem? (held m) index))
    then fail (Error.key_exists key)
    else insert_here split (held m) index layer (new_leaf key value) (tree_before index (held m))

unfoldable pub insert : ℕ → Reader → Mst → Str → Cid → ℕ → Read Mst
insert zero r m key value _ = too_deep
insert (suc n) r m key value zeros = do
  (m, here) ← layer n r m
  if ltb here zeros then insert_above n r m key value zeros here else do
    (m, index) ← index_of r m key
    insert_within (λ subtree. insert n r subtree key value zeros)
        (λ subtree. split_around n r subtree key) m index key value zeros here

unfoldable pub add : Reader → Mst → Str → Cid → Read Mst
add r m key value = do
  lift (ensure_valid_key key)
  insert depth_max r m key value (leading_zeros r.sha256 key)

unfoldable pub update_under :
    (Mst → Read Mst) → Str → List Entry → Option ℕ → Option (ℕ × Mst) → Read Mst
update_under update key es layer none = fail (Error.key_missing key)
update_under update key es layer (some (i, subtree)) = do
  changed ← update subtree
  pure (from_entries (set es i (tree changed)) layer)

unfoldable pub update_here : (Mst → Read Mst) → Str → Cid → Mst → ℕ → Option Cid → Read Mst
update_here update key value m index (some _) =
    pure (from_entries (set (held m) index (new_leaf key value)) (layer_of m))
update_here update key value m index none =
    update_under update key (held m) (layer_of m) (tree_before index (held m))

unfoldable pub update_in : ℕ → Reader → Mst → Str → Cid → Read Mst
update_in zero r m key value = too_deep
update_in (suc n) r m key value = do
  lift (ensure_valid_key key)
  (m, index) ← index_of r m key
  update_here (λ subtree. update_in n r subtree key value) key value m index
      (value_of key (get_elem? (held m) index))

unfoldable pub update : Reader → Mst → Str → Cid → Read Mst
update r m key value = update_in depth_max r m key value

-- ===== src/Repo/Mst/Raise.antt =====
-- What `insert` builds its result from: the halves raised to the layer under the key's, a leaf laid
-- between them, and the records of the node that comes of it.
use mathlib.Core.List.{append-nil}
use manapds.Prelude.{
  List, Option, Str, [], ap, arith, false, none, refl, some, suc, zero, ℕ, ◌++◌, ◌+◌, ◌∙◌, ◌∷◌, ◌≡◌,
}
use manapds.Prelude.Bytes.{is_empty}
use manapds.Prelude.Result.{ok}
use manapds.Repo.{Cid}
use manapds.Repo.Mst.{Leaf, Mst, mst, Entry, leaf, tree, from_entries, Reader}
use manapds.Repo.Mst.Node.{held}
use manapds.Repo.Mst.Layer.{layer, find_layer}
use manapds.Repo.Mst.Edit.{tree_of, into_parent, raise}
use manapds.Repo.Mst.Items.{
  items, to_list-from_list, Below, Above, insert_leaf, insert_leaf-Below, insert_leaf-Above,
}
use manapds.Repo.Mst.Spot.{Alternates, All-append}
use manapds.Repo.Mst.Layered.{Layered, EntryAt, Under, Layered-by}
use manapds.Repo.Mst.Shape.{half_items, HalfAt, from_entries-Layered, All-tree_of}

-- A node that knows its layer is asked for it and stays as it was.
pub layer-known :
    (z : Str → ℕ) (k n : ℕ) (r : Reader) (m : Mst) (seen : List Cid)
    → Layered z n m
    → layer (suc k) r m seen ≡ ok ((m, n), seen)
unfolding layer find_layer
layer-known z k n r (mst es none p) seen h = absurd (cc (Layered-by z n h).knows)
layer-known z k n r (mst es (some l) p) seen h = ground (arith, (Layered-by z n h).knows)

pub is_empty-append {ℓ} :
    {A : Type ℓ} (xs : List A) (x : A) (ys : List A) → is_empty (xs ++ x ∷ ys) ≡ false
is_empty-append [] x ys = refl
is_empty-append (y ∷ xs) x ys = refl

pub held-not_empty :
    (xs : List Entry) (x : Entry) (ys : List Entry) (l : Option ℕ)
    → is_empty (held (from_entries (xs ++ x ∷ ys) l)) ≡ false
held-not_empty xs x ys l = rw (to_list-from_list (xs ++ x ∷ ys)) (is_empty-append xs x ys)

-- A record goes between what is below it and what is above it.
pub insert_leaf-middle :
    (a : Leaf) (xs mid ys : List Leaf)
    → Below a.key xs
    → Above a.key ys
    → insert_leaf a (xs ++ (mid ++ ys)) ≡ xs ++ (insert_leaf a mid ++ ys)
insert_leaf-middle a xs mid ys below above =
    insert_leaf-Below a xs (mid ++ ys) below ∙ ap (◌++◌ xs) (insert_leaf-Above a mid ys above)

pub insert_leaf-between :
    (a : Leaf) (xs ys : List Leaf)
    → Below a.key xs
    → Above a.key ys
    → insert_leaf a (xs ++ ys) ≡ xs ++ a ∷ ys
unfolding insert_leaf
insert_leaf-between a xs ys below above = insert_leaf-middle a xs [] ys below above

into_parent-Layered :
    (z : Str → ℕ) (n : ℕ) (m : Mst)
    → Layered z n m
    → is_empty (held m) ≡ false
    → (parent : Mst) × (into_parent m ≡ ok parent)
      × Layered z (suc n) parent
      × (is_empty (held parent) ≡ false)
      × (items parent ≡ items m)
unfolding into_parent items
into_parent-Layered z n (mst c l p) h full =
    let e : n + 1 ≡ suc n = omega arith in
    (
      from_entries (tree (mst c l p) ∷ []) (some (n + 1)),
      rw (Layered-by z n h).knows,
      rw e (from_entries-Layered z (suc n) (tree (mst c l p) ∷ []) (refl, tt) ((h, full), tt)),
      refl,
      append-nil (items (mst c l p)),
    )

pub raise-HalfAt :
    (z : Str → ℕ) (j n : ℕ) (half : Option Mst) (seen : List Cid)
    → HalfAt z n half
    → (raised : Option Mst) × (raise j half seen ≡ ok (raised, seen))
      × HalfAt z (n + j) raised
      × (half_items raised ≡ half_items half)
unfolding raise
raise-HalfAt z zero n none seen h = (none, refl, tt, refl)
raise-HalfAt z zero n (some m) seen h =
    let e : n + 0 ≡ n = omega arith in (some m, refl, rw e h, refl)
raise-HalfAt z (suc j) n none seen h = (none, refl, tt, refl)
raise-HalfAt z (suc j) n (some m) seen h =
    let (parent, up, at, full, same) = into_parent-Layered z n m h.0 h.1 in
    let (raised, runs, raised_at, raised_same) =
      raise-HalfAt z j (suc n) (some parent) seen (at, full) in
    let e : n + suc j ≡ suc n + j = omega arith in
    (raised, rw (up) runs, rw e raised_at, raised_same ∙ same)

-- A leaf with a half on either side.
pub between-Layered :
    (z : Str → ℕ) (n : ℕ) (a : Leaf) (left right : Option Mst)
    → z a.key ≡ suc n
    → HalfAt z n left
    → HalfAt z n right
    → Layered z (suc n) (from_entries (tree_of left ++ leaf a ∷ tree_of right) (some (suc n)))
between-Layered z n a left right layer_is l r =
    from_entries-Layered z (suc n) (tree_of left ++ leaf a ∷ tree_of right) (alternates left right)
      (All-append (EntryAt z (suc n) (Under z (suc n))) (tree_of left) (leaf a ∷ tree_of right)
        (All-tree_of z n left l) (layer_is, All-tree_of z n right r))
  where
    alternates :
        (left right : Option Mst) → Alternates false (tree_of left ++ leaf a ∷ tree_of right)
    alternates none none = tt
    alternates none (some m) = (refl, tt)
    alternates (some t) none = (refl, tt)
    alternates (some t) (some m) = (refl, (refl, tt))

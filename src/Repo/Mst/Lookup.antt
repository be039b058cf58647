-- ===== src/Repo/Mst/Lookup.antt =====
-- `get` is lookup among the records of a tree in memory.
use mathlib.Core.Path.{subst}
use manapds.Prelude.{
  set-append, set, List, Option, Str, [], ap, arith, length, none, refl, some, suc, sym, zero, ℕ,
  ◌++◌, ◌<◌, ◌∙◌, ◌∷◌, ◌≡◌,
}
use manapds.Prelude.Eq.{str_eq_refl}
use manapds.Prelude.Result.{ok}
use manapds.Repo.{Cid}
use manapds.Repo.Mst.{
  from_list, Entries, Leaf, Mst, mst, unread, loaded, Entry, leaf, tree, to_list, Reader,
}
use manapds.Repo.Mst.Node.{position_of, fill, index_of}
use manapds.Repo.Mst.Find.{put_back, get_in, get_here, get_under}
use manapds.Repo.Mst.Items.{
  from_list-to_list, items, flat, items_in-flat, flat-append, Below, Above, Sorted, lookup_leaf,
  lookup_leaf-Below, lookup_leaf-Above,
}
use manapds.Repo.Mst.Spot.{All-back, Sorted-back, Sorted-front, hit, gap, under, spot}
use manapds.Repo.Mst.Layered.{Under-suc, EntryAt, Layered, Under, Layered-by}

module _ (key : Str) where
  pub lookup-hit :
      (pre : List Entry) (a : Leaf) (post : List Entry)
      → Below key (flat pre)
      → a.key ≡ key
      → lookup_leaf key (flat (pre ++ leaf a ∷ post)) ≡ some a.value
  unfolding lookup_leaf flat
  lookup-hit pre a post below same =
      rw (flat-append pre (leaf a ∷ post))
        (lookup_leaf-Below key (flat pre) (a ∷ flat post) below ∙ rw same (rw (str_eq_refl key)))

  pub lookup-gap :
      (pre post : List Entry)
      → Below key (flat pre)
      → Above key (flat post)
      → lookup_leaf key (flat (pre ++ post)) ≡ none
  unfolding lookup_leaf
  lookup-gap pre post below above = rw (flat-append pre post) (
      lookup_leaf-Below key (flat pre) (flat post) below
      ∙ lookup_leaf-Above key [] (flat post) above)

  pub lookup-under :
      (pre : List Entry) (m : Mst) (post : List Entry)
      → Below key (flat pre)
      → Above key (flat post)
      → lookup_leaf key (flat (pre ++ tree m ∷ post)) ≡ lookup_leaf key (items m)
  unfolding flat
  lookup-under pre m post below above = rw (flat-append pre (tree m ∷ post)) (
      lookup_leaf-Below key (flat pre) (items m ++ flat post) below
      ∙ lookup_leaf-Above key (items m) (flat post) above)

pub index_of-loaded :
    (r : Reader) (es : Entries) (l : Option ℕ) (p : Option Cid) (key : Str) (seen : List Cid)
    → index_of r (mst (loaded es) l p) key seen
      ≡ ok ((mst (loaded es) l p, position_of key (to_list es)), seen)
unfolding index_of fill
index_of-loaded r es l p key seen = refl

-- Putting back the subtree that stands there changes nothing.
pub put_back_self :
    (es : Entries) (l : Option ℕ) (p : Option Cid) (pre : List Entry) (t : Mst) (post : List Entry)
    → to_list es ≡ pre ++ tree t ∷ post
    → put_back (mst (loaded es) l p) (length pre) t ≡ mst (loaded es) l p
put_back_self es l p pre t post e = ap (λ xs. mst (loaded xs) l p) same
  where
    same : from_list (set (to_list es) (length pre) (tree t)) ≡ es
    same =
        ap (λ xs. from_list (set xs (length pre) (tree t))) e
        ∙ ap from_list (set-append pre (tree t) (tree t) post ∙ sym e)
        ∙ from_list-to_list es

pub subtree_at :
    (z : Str → ℕ) (n : ℕ) (es : Entries) (l : Option ℕ) (p : Option Cid) (pre : List Entry)
    (t : Mst) (post : List Entry)
    → Layered z n (mst (loaded es) l p)
    → to_list es ≡ pre ++ tree t ∷ post
    → Under z n t
subtree_at z n es l p pre t post h e =
    (All-back (EntryAt z n (Under z n)) pre (tree t ∷ post)
      (rw e at (Layered-by z n h).entries_at)).0

pub Sorted-subtree :
    (pre : List Entry) (t : Mst) (post : List Entry)
    → Sorted (flat (pre ++ tree t ∷ post))
    → Sorted (items t)
unfolding flat
Sorted-subtree pre t post s =
    Sorted-front (items t) (flat post)
      (Sorted-back (flat pre) (items t ++ flat post) (rw (flat-append pre (tree t ∷ post)) at s))

-- With levels left below it, `get_in` finds the record that the tree holds under a key, and leaves the
-- tree as it was.
pub get_in-lookup_leaf :
    (z : Str → ℕ) (k n : ℕ) (r : Reader) (m : Mst) (key : Str) (seen : List Cid)
    → n < k
    → Layered z n m
    → Sorted (items m)
    → get_in k r m key seen ≡ ok ((m, lookup_leaf key (items m)), seen)
unfolding get_in get_here get_under items
get_in-lookup_leaf z zero n r m key seen d h s = absurd (omega arith)
get_in-lookup_leaf z (suc k) n r (mst unread l p) key seen d h s =
    absurd ((Layered-by z n h).is_loaded)
get_in-lookup_leaf z (suc k) n r (mst (loaded es) l p) key seen d h s =
    let flat_is = items_in-flat es in
    let sorted : Sorted (flat (to_list es)) = subst Sorted flat_is s in
    elim (spot key (to_list es) (Layered-by z n h).alternates sorted) [
      | hit pre a post e same i v below above ↦
          let found =
            ap (lookup_leaf key) (flat_is ∙ ap flat e) ∙ lookup-hit key pre a post below same in
          rw (index_of-loaded r es l p key seen) (rw v (rw found))
      | gap pre post e i v t below above room ↦
          let found =
            ap (lookup_leaf key) (flat_is ∙ ap flat e) ∙ lookup-gap key pre post below above in
          rw (index_of-loaded r es l p key seen) (rw v (rw t (rw found)))
      | under pre t post e i v b below above ↦
          let found =
            ap (lookup_leaf key) (flat_is ∙ ap flat e) ∙ lookup-under key pre t post below above in
          let (n', en, ht, _) = Under-suc z n t (subtree_at z n es l p pre t post h e) in
          let ih =
            get_in-lookup_leaf z k n' r t key seen (omega arith) ht
              (Sorted-subtree pre t post (rw e at sorted)) in
          rw (index_of-loaded r es l p key seen)
            (rw v (rw b (rw ih (rw (found, put_back_self es l p pre t post e)))))
    ]

-- ===== src/Repo/Mst/Insert.antt =====
-- `insert` adds a record that a tree does not hold, at the layer that its key belongs on.
use mathlib.Core.List.{append_assoc}
use manapds.Prelude.{
  All, List, Option, Str, ap, arith, false, none, some, suc, sym, ℕ, ◌++◌, ◌+◌, ◌-◌, ◌<◌, ◌∙◌, ◌∷◌,
  ◌≡◌,
}
use mathlib.Core.Path.{ap₂}
use manapds.Prelude.Bytes.{is_empty}
use manapds.Prelude.Result.{Result, ok}
use manapds.Repo.{Cid, Error}
use manapds.Repo.Mst.{Leaf, Mst, Entry, leaf, tree, from_entries, Reader}
use manapds.Repo.Mst.Node.{held}
use manapds.Repo.Mst.Edit.{tree_of, insert_above}
use manapds.Repo.Mst.Items.{
  items, flat, flat-append, Below, Above, Sorted, lookup_leaf, insert_leaf,
}
use manapds.Repo.Mst.Spot.{Alternates, All-append, All-front, All-back}
use manapds.Repo.Mst.Layered.{Layered, EntryAt, Under}
use manapds.Repo.Mst.Shape.{
  Alternates-front, Alternates-back, Alternates-behind, Alternates-leaf, Alternates-tree_of,
  Alternates-tree_of_back, half_items, flat-tree_of, items-from_entries, from_entries-Layered,
  All-tree_of,
}
use manapds.Repo.Mst.Split.{Halves, split_around-Halves}
use manapds.Repo.Mst.Raise.{
  held-not_empty, insert_leaf-middle, insert_leaf-between, raise-HalfAt, between-Layered,
}

abbrev pub record_at : Str → Cid → Leaf
record_at key value = record { key = key; value = value }

-- A run that gives a tree on layer `n` with one record more.
pub record Inserts (z : Str → ℕ) (n : ℕ) (a : Leaf) (records : List Leaf) (seen : List Cid)
    (run : Result Error (Mst × List Cid)) : Type 0 where
  pub grown : Mst
  pub runs : run ≡ ok (grown, seen)
  pub layered : Layered z n grown
  pub full : is_empty (held grown) ≡ false
  pub records_are : items grown ≡ insert_leaf a records

-- The key belongs above everything in the tree.
pub insert_above-Inserts :
    (z : Str → ℕ) (k n j : ℕ) (r : Reader) (m : Mst) (key : Str) (value : Cid) (seen : List Cid)
    → n < k
    → Layered z n m
    → Sorted (items m)
    → lookup_leaf key (items m) ≡ none
    → z key ≡ suc (n + j)
    → Inserts z
        (suc (n + j))
        (record_at key value)
        (items m)
        seen
        (insert_above k r m key value (suc (n + j)) n seen)
unfolding insert_above flat
insert_above-Inserts z k n j r m key value seen d h s absent at =
    let (left, right, runs, halves) = split_around-Halves z k n r m key seen d h s absent in
    let (l, l_runs, l_at, l_same) = raise-HalfAt z j n left seen halves.left_at in
    let (g, g_runs, g_at, g_same) = raise-HalfAt z j n right seen halves.right_at in
    let rounds : suc (n + j) - n - 1 ≡ j = omega arith in
    let a : Leaf = record_at key value in
    record {
      grown = from_entries (tree_of l ++ leaf a ∷ tree_of g) (some (suc (n + j)));
      runs = rw runs (rw rounds (rw l_runs (rw g_runs)));
      layered = between-Layered z (n + j) a l g at l_at g_at;
      full = held-not_empty (tree_of l) (leaf a) (tree_of g) (some (suc (n + j)));
      records_are =
          items-from_entries (tree_of l ++ leaf a ∷ tree_of g) (some (suc (n + j)))
          ∙ flat-append (tree_of l) (leaf a ∷ tree_of g)
          ∙ ap₂ (λ xs ys. xs ++ a ∷ ys) (flat-tree_of l ∙ l_same) (flat-tree_of g ∙ g_same)
          ∙ sym (
              ap (insert_leaf a) halves.parts
              ∙ insert_leaf-between a (half_items left) (half_items right) halves.below
                  halves.above);
    }

-- The entries of the node that comes of it: a leaf in a gap.
pub gap_leaf :
    (z : Str → ℕ) (n : ℕ) (a : Leaf) (pre post : List Entry)
    → Alternates false (pre ++ post)
    → All (EntryAt z n (Under z n)) (pre ++ post)
    → Below a.key (flat pre)
    → Above a.key (flat post)
    → z a.key ≡ n
    → Layered z n (from_entries (pre ++ leaf a ∷ post) (some n))
      × (items (from_entries (pre ++ leaf a ∷ post) (some n)) ≡ insert_leaf a (flat (pre ++ post)))
unfolding flat
gap_leaf z n a pre post alt at below above here =
    let P = EntryAt z n (Under z n) in
    (
      from_entries-Layered z n (pre ++ leaf a ∷ post)
          (Alternates-leaf false pre a post (Alternates-front false pre post alt)
            (Alternates-back false pre post alt))
          (All-append P pre (leaf a ∷ post) (All-front P pre post at)
            (here, All-back P pre post at)),
      items-from_entries (pre ++ leaf a ∷ post) (some n)
          ∙ flat-append pre (leaf a ∷ post)
          ∙ sym (
              ap (insert_leaf a) (flat-append pre post)
              ∙ insert_leaf-between a (flat pre) (flat post) below above),
    )

-- A leaf between the halves of the subtree that spanned it.
pub split_leaf :
    (z : Str → ℕ) (n : ℕ) (a : Leaf) (pre : List Entry) (t : Mst) (post : List Entry)
    (left right : Option Mst)
    → Alternates false (pre ++ tree t ∷ post)
    → All (EntryAt z (suc n) (Under z (suc n))) (pre ++ tree t ∷ post)
    → Below a.key (flat pre)
    → Above a.key (flat post)
    → z a.key ≡ suc n
    → Halves z n a.key (items t) left right
    → Layered z
        (suc n)
        (from_entries (pre ++ (tree_of left ++ leaf a ∷ (tree_of right ++ post))) (some (suc n)))
      × (items (
            from_entries (pre ++ (tree_of left ++ leaf a ∷ (tree_of right ++ post))) (some (suc n)))
          ≡ insert_leaf a (flat (pre ++ tree t ∷ post)))
unfolding flat
split_leaf z n a pre t post left right alt at below above here halves =
    let P = EntryAt z (suc n) (Under z (suc n)) in
    let front_alt = Alternates-tree_of_back false pre t post left alt in
    let back_alt = Alternates-tree_of false right post (Alternates-behind false pre t post alt) in
    let l : List Leaf = half_items left in
    let g : List Leaf = half_items right in
    let lhs : flat (pre ++ (tree_of left ++ leaf a ∷ (tree_of right ++ post)))
        ≡ flat pre ++ ((l ++ a ∷ g) ++ flat post) =
      simp (flat-append, flat-tree_of, append_assoc) in
    let rhs : insert_leaf a (flat (pre ++ tree t ∷ post))
        ≡ flat pre ++ ((l ++ a ∷ g) ++ flat post) =
      ap (insert_leaf a) (flat-append pre (tree t ∷ post))
      ∙ insert_leaf-middle a (flat pre) (items t) (flat post) below above
      ∙ ap (λ xs. flat pre ++ (xs ++ flat post))
          (ap (insert_leaf a) halves.parts ∙ insert_leaf-between a l g halves.below halves.above) in
    let whole : pre ++ (tree_of left ++ leaf a ∷ (tree_of right ++ post))
        ≡ (pre ++ tree_of left) ++ leaf a ∷ (tree_of right ++ post) =
      sym (append_assoc pre (tree_of left) (leaf a ∷ (tree_of right ++ post))) in
    (
      rw whole (
          from_entries-Layered z (suc n) ((pre ++ tree_of left) ++ leaf a ∷ (tree_of right ++ post))
            (Alternates-leaf false (pre ++ tree_of left) a (tree_of right ++ post) front_alt
              back_alt)
            (All-append P (pre ++ tree_of left) (leaf a ∷ (tree_of right ++ post))
              (All-append P pre (tree_of left) (All-front P pre (tree t ∷ post) at)
                (All-tree_of z n left halves.left_at))
              (
                here,
                All-append P (tree_of right) post (All-tree_of z n right halves.right_at)
                    (All-back P pre (tree t ∷ post) at).1,
              ))),
      items-from_entries (pre ++ (tree_of left ++ leaf a ∷ (tree_of right ++ post))) (some (suc n))
          ∙ lhs
          ∙ sym rhs,
    )

-- A subtree in a gap, or one that grew in its place.
pub subtree_grown :
    (z : Str → ℕ) (n : ℕ) (a : Leaf) (pre : List Entry) (t : Mst) (post : List Entry)
    (records : List Leaf)
    → Alternates false (pre ++ tree t ∷ post)
    → All (EntryAt z (suc n) (Under z (suc n))) (pre ++ post)
    → Layered z n t
    → is_empty (held t) ≡ false
    → items t ≡ insert_leaf a records
    → Below a.key (flat pre)
    → Above a.key (flat post)
    → Layered z (suc n) (from_entries (pre ++ tree t ∷ post) (some (suc n)))
      × (items (from_entries (pre ++ tree t ∷ post) (some (suc n)))
          ≡ insert_leaf a (flat pre ++ (records ++ flat post)))
unfolding flat
subtree_grown z n a pre t post records alt at layered full same below above =
    let P = EntryAt z (suc n) (Under z (suc n)) in
    (
      from_entries-Layered z (suc n) (pre ++ tree t ∷ post) alt (
          All-append P pre (tree t ∷ post) (All-front P pre post at)
            ((layered, full), All-back P pre post at)),
      items-from_entries (pre ++ tree t ∷ post) (some (suc n))
          ∙ flat-append pre (tree t ∷ post)
          ∙ ap (λ xs. flat pre ++ (xs ++ flat post)) same
          ∙ sym (insert_leaf-middle a (flat pre) records (flat post) below above),
    )

pub All-drop :
    (P : Entry → Type 0) (pre : List Entry) (e : Entry) (post : List Entry)
    → All P (pre ++ e ∷ post)
    → All P (pre ++ post)
All-drop P pre e post h =
    All-append P pre post (All-front P pre (e ∷ post) h) (All-back P pre (e ∷ post) h).1

-- ===== src/Repo/Mst/Split.antt =====
-- `split_around` cuts a tree in two at a key that it does not hold.
use mathlib.Core.List.{append_assoc}
use mathlib.Core.Path.{subst}
use manapds.Prelude.{
  take-append, drop-append, take-suc-append, drop-suc-append, All, List, Option, Str, [], ap, arith,
  drop, false, length, none, refl, some, suc, sym, take, true, zero, ℕ, ◌++◌, ◌<◌, ◌∙◌, ◌∷◌, ◌≡◌,
}
use manapds.Prelude.Bytes.{str_lt}
use manapds.Prelude.Result.{ok}
use manapds.Repo.{Cid}
use manapds.Repo.Mst.{Leaf, Mst, mst, unread, loaded, Entries, Entry, leaf, tree, to_list, Reader}
use manapds.Repo.Mst.Node.{position_of}
use manapds.Repo.Mst.Find.{tree_before}
use manapds.Repo.Mst.Edit.{pop_tree, node_of, tree_of, split_last, split_around}
use manapds.Repo.Mst.Items.{
  items, items_in-flat, flat, flat-append, Below, Above, Sorted, lookup_leaf,
}
use manapds.Repo.Mst.Spot.{
  hit, gap, under, spot, Alternates, All-append, All-front, All-back, tree_before-suc, shift,
}
use manapds.Repo.Mst.Layered.{Layered, LayeredBy, EntryAt, Under, Layered-by}
use manapds.Repo.Mst.Lookup.{subtree_at, lookup-hit, lookup-under, index_of-loaded, Sorted-subtree}
use manapds.Repo.Mst.Shape.{
  Alternates-front, Alternates-back, Alternates-behind, Alternates-tree_of, Alternates-tree_of_back,
  pop_tree-append, half_items, flat-tree_of, HalfAt, half_items-node_of, node_of-HalfAt,
  All-tree_of,
}

-- The two halves of a tree either side of a key, each on the tree's own layer.
pub record Halves (z : Str → ℕ) (n : ℕ) (key : Str) (records : List Leaf) (left right : Option Mst)
    : Type 0 where
  pub left_at : HalfAt z n left
  pub right_at : HalfAt z n right
  pub parts : records ≡ half_items left ++ half_items right
  pub below : Below key (half_items left)
  pub above : Above key (half_items right)

shift-none : (o : Option (ℕ × Mst)) → shift o ≡ none → o ≡ none
shift-none none h = refl
shift-none (some (i, m)) h = cc

-- No subtree stands before the place: none is at the end of what stands before it.
pub pop_tree-none :
    (xs ys : List Entry) → tree_before (length xs) (xs ++ ys) ≡ none → pop_tree xs ≡ none
unfolding pop_tree
pop_tree-none [] ys h = refl
pop_tree-none (leaf a ∷ []) ys h = refl
pop_tree-none (tree m ∷ []) ys h = cc
pop_tree-none (leaf a ∷ x ∷ xs) ys h = rw (
    pop_tree-none (x ∷ xs) ys
      (shift-none _ (sym (tree_before-suc (length xs) (leaf a) (x ∷ xs ++ ys)) ∙ h)))
pop_tree-none (tree m ∷ x ∷ xs) ys h = rw (
    pop_tree-none (x ∷ xs) ys
      (shift-none _ (sym (tree_before-suc (length xs) (tree m) (x ∷ xs ++ ys)) ∙ h)))

module _ (z : Str → ℕ) (n : ℕ) (key : Str) where
  pub Halves-gap :
      (pre post : List Entry)
      → Alternates false (pre ++ post)
      → All (EntryAt z n (Under z n)) (pre ++ post)
      → Below key (flat pre)
      → Above key (flat post)
      → Halves z n key (flat (pre ++ post)) (node_of pre (some n)) (node_of post (some n))
  Halves-gap pre post alt at below above = record {
    left_at =
        node_of-HalfAt z n pre (Alternates-front false pre post alt)
          (All-front (EntryAt z n (Under z n)) pre post at);
    right_at =
        node_of-HalfAt z n post (Alternates-back false pre post alt)
          (All-back (EntryAt z n (Under z n)) pre post at);
    parts =
        rw (half_items-node_of pre (some n), half_items-node_of post (some n))
          (flat-append pre post);
    below = rw (half_items-node_of pre (some n)) below;
    above = rw (half_items-node_of post (some n)) above;
  }

Halves-Under :
    (z : Str → ℕ) (n : ℕ) (key : Str) (pre : List Entry) (t : Mst) (post : List Entry)
    (left right : Option Mst)
    → Alternates false (pre ++ tree t ∷ post)
    → All (EntryAt z (suc n) (Under z (suc n))) (pre ++ tree t ∷ post)
    → Below key (flat pre)
    → Above key (flat post)
    → Halves z n key (items t) left right
    → Halves z
        (suc n)
        key
        (flat (pre ++ tree t ∷ post))
        (node_of (pre ++ tree_of left) (some (suc n)))
        (node_of (tree_of right ++ post) (some (suc n)))
unfolding flat
Halves-Under z n key pre t post left right alt at below above h =
    let P = EntryAt z (suc n) (Under z (suc n)) in
    let l : half_items (node_of (pre ++ tree_of left) (some (suc n)))
        ≡ flat pre ++ half_items left =
      half_items-node_of (pre ++ tree_of left) (some (suc n))
      ∙ flat-append pre (tree_of left)
      ∙ ap (◌++◌ (flat pre)) (flat-tree_of left) in
    let r : half_items (node_of (tree_of right ++ post) (some (suc n)))
        ≡ half_items right ++ flat post =
      half_items-node_of (tree_of right ++ post) (some (suc n))
      ∙ flat-append (tree_of right) post
      ∙ ap (λ xs. xs ++ flat post) (flat-tree_of right) in
    record {
      left_at =
          node_of-HalfAt z (suc n) (pre ++ tree_of left)
            (Alternates-tree_of_back false pre t post left alt)
            (All-append P pre (tree_of left) (All-front P pre (tree t ∷ post) at)
              (All-tree_of z n left h.left_at));
      right_at =
          node_of-HalfAt z (suc n) (tree_of right ++ post)
            (Alternates-tree_of false right post (Alternates-behind false pre t post alt))
            (All-append P (tree_of right) post (All-tree_of z n right h.right_at)
              (All-back P pre (tree t ∷ post) at).1);
      parts = rw (l, r) (flat-append pre (tree t ∷ post) ∙ rw h.parts (simp append_assoc));
      below =
          rw l
            (All-append (λ a. str_lt a.key key ≡ true) (flat pre) (half_items left) below h.below);
      above =
          rw r (
            All-append (λ a. str_lt key a.key ≡ true) (half_items right) (flat post) h.above above);
    }

abbrev Split : (Str → ℕ) → ℕ → ℕ → Reader → Mst → Str → List Cid → Type 0
Split z k n r m key seen =
    (left : Option Mst) × (right : Option Mst) × (split_around k r m key seen
      ≡ ok ((left, right), seen))
    × Halves z n key (items m) left right

module _ (z : Str → ℕ) (k n : ℕ) (r : Reader) (es : Entries) (l : Option ℕ) (p : Option Cid)
    (key : Str) (seen : List Cid) (h : LayeredBy z n (Under z n) (mst (loaded es) l p)) where
  gap-Halves :
      (pre post : List Entry)
      → to_list es ≡ pre ++ post
      → position_of key (to_list es) ≡ length pre
      → tree_before (position_of key (to_list es)) (to_list es) ≡ none
      → Below key (flat pre)
      → Above key (flat post)
      → Split z (suc k) n r (mst (loaded es) l p) key seen
  unfolding split_around split_last items
  gap-Halves pre post e i t below above =
      let front =
        ap (λ (j : ℕ). take j (to_list es)) i ∙ ap (take (length pre)) e ∙ take-append pre post in
      let rest =
        ap (λ (j : ℕ). drop j (to_list es)) i ∙ ap (drop (length pre)) e ∙ drop-append pre post in
      let clear =
        sym (ap (λ (j : ℕ). tree_before j (to_list es)) i ∙ ap (tree_before (length pre)) e) ∙ t in
      let popped = pop_tree-none pre post clear in
      (
        node_of pre (some n),
        node_of post (some n),
        rw (index_of-loaded r es l p key seen) (rw (front, rest) (rw (popped, h.knows))),
        rw (items_in-flat es, e)
            (Halves-gap z n key pre post (rw e at h.alternates) (rw e at h.entries_at) below above),
      )

-- With levels left below it, `split_around` cuts a tree that does not hold the key into its records
-- below the key and those above it, each half on the tree's layer, or nothing where it has no record.
pub split_around-Halves :
    (z : Str → ℕ) (k n : ℕ) (r : Reader) (m : Mst) (key : Str) (seen : List Cid)
    → n < k
    → Layered z n m
    → Sorted (items m)
    → lookup_leaf key (items m) ≡ none
    → (left : Option Mst) × (right : Option Mst) × (split_around k r m key seen
        ≡ ok ((left, right), seen))
      × Halves z n key (items m) left right
unfolding split_around split_last items
split_around-Halves z zero n r m key seen d h s none_there = absurd (omega arith)
split_around-Halves z (suc k) n r (mst unread l p) key seen d h s none_there =
    absurd (Layered-by z n h).is_loaded
split_around-Halves z (suc k) zero r (mst (loaded es) l p) key seen d h s none_there =
    let by = Layered-by z zero h in
    elim (spot key (to_list es) by.alternates (subst Sorted (items_in-flat es) s)) [
      | hit pre a post e same i v below above ↦ absurd (
          cc (
            none_there,
            ap (lookup_leaf key) (items_in-flat es ∙ ap flat e)
                ∙ lookup-hit key pre a post below same,
          ))
      | gap pre post e i v t below above room ↦
          gap-Halves z k zero r es l p key seen by pre post e i t below above
      | under pre t post e i v b below above ↦ absurd (subtree_at z zero es l p pre t post h e)
    ]
split_around-Halves z (suc k) (suc n) r (mst (loaded es) l p) key seen d h s none_there =
    let flat_is = items_in-flat es in
    let sorted : Sorted (flat (to_list es)) = subst Sorted flat_is s in
    elim (spot key (to_list es) h.alternates sorted) [
      | hit pre a post e same i v below above ↦ absurd (
          cc (
            none_there,
            ap (lookup_leaf key) (flat_is ∙ ap flat e) ∙ lookup-hit key pre a post below same,
          ))
      | gap pre post e i v t below above room ↦
          gap-Halves z k (suc n) r es l p key seen h pre post e i t below above
      | under pre t post e i v b below above ↦
          let absent =
            sym
              (ap (lookup_leaf key) (flat_is ∙ ap flat e) ∙ lookup-under key pre t post below above)
            ∙ none_there in
          let (left, right, runs, halves) =
            split_around-Halves z k n r t key seen (omega arith)
              (subtree_at z (suc n) es l p pre t post h e).0
              (Sorted-subtree pre t post (rw e at sorted)) absent in
          let front =
            ap (λ (j : ℕ). take j (to_list es)) i
            ∙ ap (take (suc (length pre))) e
            ∙ take-suc-append pre (tree t) post in
          let rest =
            ap (λ (j : ℕ). drop j (to_list es)) i
            ∙ ap (drop (suc (length pre))) e
            ∙ drop-suc-append pre (tree t) post in
          (
            node_of (pre ++ tree_of left) (some (suc n)),
            node_of (tree_of right ++ post) (some (suc n)),
            rw (index_of-loaded r es l p key seen)
                (rw (front, rest) (rw (pop_tree-append pre t, h.knows) (rw runs))),
            rw (flat_is, e)
                (Halves-Under z n key pre t post left right (rw e at h.alternates)
                  (rw e at h.entries_at) below above halves),
          )
    ]

-- ===== src/Repo/Mst/Within.antt =====
-- The second half of `insert`: at a node on the key's own layer, and at one above it.
use mathlib.Core.List.{append_assoc}
use manapds.Prelude.{
  List, Option, Str, [], ap, arith, drop, drop-append, drop-suc-append, false, get_elem?, length,
  ltb, lt→ltb, none, refl, set, set-append, some, suc, sym, take, take-append, true, zero, ℕ, ◌++◌,
  ◌-◌, ◌<◌, ◌∙◌, ◌∷◌, ◌≡◌,
}
use manapds.Prelude.Result.{Result}
use manapds.Repo.{Cid, Error}
use manapds.Repo.Mst.{
  Leaf, Mst, mst, loaded, Entries, Entry, leaf, tree, to_list, from_entries, Reader, Read,
}
use manapds.Repo.Mst.Node.{position_of}
use manapds.Repo.Mst.Find.{value_of, tree_before}
use manapds.Repo.Mst.Edit.{tree_of, split_around, insert_within}
use manapds.Repo.Mst.Items.{items, flat, flat-append, Below, Above, Sorted, lookup_leaf}
use manapds.Repo.Mst.Spot.{hit, gap, under, spot}
use manapds.Repo.Mst.Layered.{Layered, LayeredBy, EntryAt, Under}
use manapds.Repo.Mst.Lookup.{lookup-hit, lookup-under, Sorted-subtree, subtree_at}
use manapds.Repo.Mst.Shape.{Alternates-swap, Alternates-behind, from_entries-Layered}
use manapds.Repo.Mst.Layered.{by-Layered}
use manapds.Repo.Mst.Split.{split_around-Halves}
use manapds.Repo.Mst.Raise.{held-not_empty}
use manapds.Repo.Mst.Insert.{Inserts, record_at, gap_leaf, split_leaf, subtree_grown, All-drop}

module _ (z : Str → ℕ) (k : ℕ) (r : Reader) (es : Entries) (l : Option ℕ) (p : Option Cid)
    (key : Str) (value : Cid) (seen : List Cid) (ins : Mst → Read Mst)
    (s : Sorted (flat (to_list es))) (absent : lookup_leaf key (flat (to_list es)) ≡ none) where
  abbrev within : ℕ → ℕ → Result Error (Mst × List Cid)
  within zeros_of n =
      insert_within ins (λ subtree. split_around k r subtree key) (mst (loaded es) l p)
        (position_of key (to_list es)) key value zeros_of n seen

  abbrev a : Leaf
  a = record_at key value

  here-gap :
      (n : ℕ) (pre post : List Entry)
      → LayeredBy z n (Under z n) (mst (loaded es) l p)
      → z key ≡ n
      → to_list es ≡ pre ++ post
      → position_of key (to_list es) ≡ length pre
      → value_of key (get_elem? (to_list es) (position_of key (to_list es))) ≡ none
      → tree_before (position_of key (to_list es)) (to_list es) ≡ none
      → Below key (flat pre)
      → Above key (flat post)
      → Inserts z n a (flat (to_list es)) seen (within n n)
  unfolding insert_within
  here-gap n pre post by here e i v t below above =
      let front =
        ap (λ (j : ℕ). take j (to_list es)) i ∙ ap (take (length pre)) e ∙ take-append pre post in
      let rest =
        ap (λ (j : ℕ). drop j (to_list es)) i ∙ ap (drop (length pre)) e ∙ drop-append pre post in
      let (layered, same) =
        gap_leaf z n a pre post (rw e at by.alternates) (rw e at by.entries_at) below above here in
      let level : ltb n n ≡ false = ground arith in
      record {
        grown = from_entries (pre ++ leaf a ∷ post) (some n);
        runs = rw level (rw v (rw t (rw (front, rest))));
        layered = layered;
        full = held-not_empty pre (leaf a) post (some n);
        records_are = rw e same;
      }

  pub within_here :
      (n : ℕ)
      → n < k
      → LayeredBy z n (Under z n) (mst (loaded es) l p)
      → z key ≡ n
      → Inserts z n a (flat (to_list es)) seen (within n n)
  unfolding insert_within
  within_here zero d by here = elim (spot key (to_list es) by.alternates s) [
    | hit pre b post e same i v below above ↦
        absurd
          (cc (absent, ap (lookup_leaf key) (ap flat e) ∙ lookup-hit key pre b post below same))
    | gap pre post e i v t below above room ↦ here-gap zero pre post by here e i v t below above
    | under pre t post e i v b below above ↦
        absurd (subtree_at z zero es l p pre t post (by-Layered z zero by) e)
  ]
  within_here (suc n) d by here = elim (spot key (to_list es) by.alternates s) [
    | hit pre b post e same i v below above ↦
        absurd
          (cc (absent, ap (lookup_leaf key) (ap flat e) ∙ lookup-hit key pre b post below same))
    | gap pre post e i v t below above room ↦ here-gap (suc n) pre post by here e i v t below above
    | under pre t post e i v b below above ↦
        let none_under =
          sym (ap (lookup_leaf key) (ap flat e) ∙ lookup-under key pre t post below above)
          ∙ absent in
        let (left, right, runs, halves) =
          split_around-Halves z k n r t key seen (omega arith)
            (subtree_at z (suc n) es l p pre t post by e).0 (Sorted-subtree pre t post (rw e at s))
            none_under in
        let front = ap (take (length pre)) e ∙ take-append pre (tree t ∷ post) in
        let rest = ap (drop (suc (length pre))) e ∙ drop-suc-append pre (tree t) post in
        let (layered, same) =
          split_leaf z n a pre t post left right (rw e at by.alternates) (rw e at by.entries_at)
            below above here halves in
        let level : ltb (suc n) (suc n) ≡ false = ground arith in
        record {
          grown =
              from_entries (pre ++ (tree_of left ++ leaf a ∷ (tree_of right ++ post)))
                (some (suc n));
          runs = rw level (rw v (rw b (rw runs (rw (front, rest)))));
          layered = layered;
          full = rw (sym (append_assoc pre (tree_of left) (leaf a ∷ (tree_of right ++ post)))) (
              held-not_empty (pre ++ tree_of left) (leaf a) (tree_of right ++ post) (some (suc n)));
          records_are = rw e same;
        }
  ]

  -- Under the node: in the subtree that spans the key, or in a new one.
  pub within_below :
      (n zeros_of : ℕ)
      → LayeredBy z (suc n) (Under z (suc n)) (mst (loaded es) l p)
      → zeros_of < suc n
      → ((t : Mst)
          → Layered z n t
          → Sorted (items t)
          → lookup_leaf key (items t) ≡ none
          → Inserts z n a (items t) seen (ins t seen))
      → Inserts z (suc n) a (flat (to_list es)) seen (within zeros_of (suc n))
  unfolding insert_within items flat lookup_leaf
  within_below n zeros_of by lower grow = elim (spot key (to_list es) by.alternates s) [
    | hit pre b post e same i v below above ↦
        absurd
          (cc (absent, ap (lookup_leaf key) (ap flat e) ∙ lookup-hit key pre b post below same))
    | gap pre post e i v t below above room ↦
        let fresh : Mst = from_entries [] (some (suc n - 1)) in
        let level_of : suc n - 1 ≡ n = omega arith in
        let g = grow fresh (rw level_of (from_entries-Layered z n [] tt tt)) tt refl in
        let front =
          ap (λ (j : ℕ). take j (to_list es)) i ∙ ap (take (length pre)) e ∙ take-append pre post in
        let rest =
          ap (λ (j : ℕ). drop j (to_list es)) i ∙ ap (drop (length pre)) e ∙ drop-append pre post in
        let (layered, same) =
          subtree_grown z n a pre g.grown post [] (room g.grown) (rw e at by.entries_at) g.layered
            g.full g.records_are below above in
        let level : ltb zeros_of (suc n) ≡ true = lt→ltb zeros_of (suc n) lower in
        record {
          grown = from_entries (pre ++ tree g.grown ∷ post) (some (suc n));
          runs = rw level (rw t (rw (front, rest) (rw (g.runs))));
          layered = layered;
          full = held-not_empty pre (tree g.grown) post (some (suc n));
          records_are = rw (e, flat-append pre post) same;
        }
    | under pre t post e i v b below above ↦
        let none_under =
          sym (ap (lookup_leaf key) (ap flat e) ∙ lookup-under key pre t post below above)
          ∙ absent in
        let g =
          grow t (subtree_at z (suc n) es l p pre t post by e).0
            (Sorted-subtree pre t post (rw e at s)) none_under in
        let put =
          ap (λ xs. set xs (length pre) (tree g.grown)) e
          ∙ set-append pre (tree t) (tree g.grown) post in
        let alt = rw e at by.alternates in
        let (layered, same) =
          subtree_grown z n a pre g.grown post (items t)
            (Alternates-swap false pre t g.grown post post alt
              (Alternates-behind false pre t post alt))
            (All-drop (EntryAt z (suc n) (Under z (suc n))) pre (tree t) post
              (rw e at by.entries_at))
            g.layered g.full g.records_are below above in
        let level : ltb zeros_of (suc n) ≡ true = lt→ltb zeros_of (suc n) lower in
        record {
          grown = from_entries (pre ++ tree g.grown ∷ post) (some (suc n));
          runs = rw level (rw b (rw (g.runs) (rw put)));
          layered = layered;
          full = held-not_empty pre (tree g.grown) post (some (suc n));
          records_are = rw (e, flat-append pre (tree t ∷ post)) same;
        }
  ]

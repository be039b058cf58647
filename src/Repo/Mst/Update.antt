-- ===== src/Repo/Mst/Update.antt =====
-- `update` puts another record under a key that a tree holds, and refuses one that it does not hold.
use mathlib.Core.Path.{subst}
use manapds.Prelude.{
  All, List, Option, Str, ap, arith, false, length, none, refl, set, set-append, some, suc, sym,
  zero, ℕ, ◌++◌, ◌<◌, ◌∙◌, ◌∷◌, ◌≡◌,
}
use manapds.Prelude.Bytes.{is_empty}
use manapds.Prelude.Eq.{str_eq_refl}
use manapds.Prelude.Result.{Result, ok, err}
use manapds.Repo.{Cid, Error}
use manapds.Repo.Mst.{
  Leaf, Mst, mst, unread, loaded, Entry, leaf, tree, to_list, from_entries, Reader,
}
use manapds.Repo.Mst.Key.{ensure_valid_key}
use manapds.Repo.Mst.Node.{held}
use manapds.Repo.Mst.Edit.{update_in, update_here, update_under}
use manapds.Repo.Mst.Items.{
  items, flat, flat-append, items_in-flat, Below, Above, Sorted, lookup_leaf, replace_leaf,
  replace_leaf-Below, replace_leaf-Above,
}
use manapds.Repo.Mst.Spot.{Alternates, hit, gap, under, spot, All-append, All-front, All-back}
use manapds.Repo.Mst.Layered.{Layered, EntryAt, Under, Layered-by, Under-suc}
use manapds.Repo.Mst.Lookup.{
  lookup-hit, lookup-gap, lookup-under, Sorted-subtree, subtree_at, index_of-loaded,
}
use manapds.Repo.Mst.Shape.{
  Alternates-front, Alternates-back, Alternates-behind, Alternates-leaf, Alternates-swap,
  items-from_entries, from_entries-Layered,
}
use manapds.Repo.Mst.Raise.{held-not_empty}
use manapds.Repo.Mst.Insert.{record_at}

-- A run that gives a tree on the same layer with one record changed.
pub record Updates (z : Str → ℕ) (n : ℕ) (a : Leaf) (records : List Leaf) (seen : List Cid)
    (run : Result Error (Mst × List Cid)) : Type 0 where
  pub changed : Mst
  pub runs : run ≡ ok (changed, seen)
  pub layered : Layered z n changed
  pub full : is_empty (held changed) ≡ false
  pub records_are : items changed ≡ replace_leaf a records

replace_leaf-at :
    (a b : Leaf) (xs ys : List Leaf)
    → Below a.key xs
    → b.key ≡ a.key
    → replace_leaf a (xs ++ b ∷ ys) ≡ xs ++ a ∷ ys
unfolding replace_leaf
replace_leaf-at a b xs ys below same =
    replace_leaf-Below a xs (b ∷ ys) below ∙ rw (same, str_eq_refl a.key) refl

-- The node with another record in the place of the leaf, or another subtree in a subtree's.
leaf_changed :
    (z : Str → ℕ) (n : ℕ) (a b : Leaf) (pre post : List Entry) (l : Option ℕ)
    → l ≡ some n
    → b.key ≡ a.key
    → Alternates false (pre ++ leaf b ∷ post)
    → All (EntryAt z n (Under z n)) (pre ++ leaf b ∷ post)
    → Below a.key (flat pre)
    → Layered z n (from_entries (pre ++ leaf a ∷ post) l)
      × (items (from_entries (pre ++ leaf a ∷ post) l)
          ≡ replace_leaf a (flat (pre ++ leaf b ∷ post)))
unfolding flat
leaf_changed z n a b pre post l knows same alt at below =
    let P = EntryAt z n (Under z n) in
    let behind = All-back P pre (leaf b ∷ post) at in
    (
      rw knows (
          from_entries-Layered z n (pre ++ leaf a ∷ post)
            (Alternates-leaf false pre a post (Alternates-front false pre (leaf b ∷ post) alt)
              (Alternates-back false pre (leaf b ∷ post) alt))
            (All-append P pre (leaf a ∷ post) (All-front P pre (leaf b ∷ post) at)
              (rw same at (behind.0), behind.1))),
      items-from_entries (pre ++ leaf a ∷ post) l
          ∙ flat-append pre (leaf a ∷ post)
          ∙ sym (
              ap (replace_leaf a) (flat-append pre (leaf b ∷ post))
              ∙ replace_leaf-at a b (flat pre) (flat post) below same),
    )

subtree_changed :
    (z : Str → ℕ) (n : ℕ) (a : Leaf) (pre : List Entry) (t c : Mst) (post : List Entry)
    (l : Option ℕ)
    → l ≡ some n
    → Under z n c
    → items c ≡ replace_leaf a (items t)
    → Alternates false (pre ++ tree t ∷ post)
    → All (EntryAt z n (Under z n)) (pre ++ tree t ∷ post)
    → Below a.key (flat pre)
    → Above a.key (flat post)
    → Layered z n (from_entries (pre ++ tree c ∷ post) l)
      × (items (from_entries (pre ++ tree c ∷ post) l)
          ≡ replace_leaf a (flat (pre ++ tree t ∷ post)))
unfolding flat
subtree_changed z n a pre t c post l knows under_it same alt at below above =
    let P = EntryAt z n (Under z n) in
    (
      rw knows (
          from_entries-Layered z n (pre ++ tree c ∷ post)
            (Alternates-swap false pre t c post post alt (Alternates-behind false pre t post alt))
            (All-append P pre (tree c ∷ post) (All-front P pre (tree t ∷ post) at)
              (under_it, (All-back P pre (tree t ∷ post) at).1))),
      items-from_entries (pre ++ tree c ∷ post) l
          ∙ flat-append pre (tree c ∷ post)
          ∙ ap (λ xs. flat pre ++ (xs ++ flat post)) same
          ∙ sym (
              ap (replace_leaf a) (flat-append pre (tree t ∷ post))
              ∙ replace_leaf-Below a (flat pre) (items t ++ flat post) below
              ∙ ap (◌++◌ (flat pre)) (replace_leaf-Above a (items t) (flat post) above)),
    )

pub update_in-Updates :
    (z : Str → ℕ) (k n : ℕ) (r : Reader) (m : Mst) (key : Str) (value held_value : Cid)
    (seen : List Cid)
    → n < k
    → ensure_valid_key key ≡ ok tt
    → Layered z n m
    → Sorted (items m)
    → lookup_leaf key (items m) ≡ some held_value
    → Updates z n (record_at key value) (items m) seen (update_in k r m key value seen)
unfolding update_in update_here update_under items
update_in-Updates z zero n r m key value held_value seen d valid h s found = absurd (omega arith)
update_in-Updates z (suc k) n r (mst unread l p) key value held_value seen d valid h s found =
    absurd (Layered-by z n h).is_loaded
update_in-Updates z (suc k) n r (mst (loaded es) l p) key value held_value seen d valid h s found =
    let flat_is = items_in-flat es in
    let by = Layered-by z n h in
    let sorted = subst Sorted flat_is s in
    let same = sym (ap (lookup_leaf key) flat_is) ∙ found in
    let a : Leaf = record_at key value in
    elim (spot key (to_list es) by.alternates sorted) [
      | hit pre b post e at i v below above ↦
          let put =
            ap (λ xs. set xs (length pre) (leaf a)) e ∙ set-append pre (leaf b) (leaf a) post in
          let (layered, items_are) =
            leaf_changed z n a b pre post l by.knows at (rw e at by.alternates)
              (rw e at by.entries_at) below in
          record {
            changed = from_entries (pre ++ leaf a ∷ post) l;
            runs = rw valid (rw (index_of-loaded r es l p key seen) (rw v (rw (i, put) refl)));
            layered = layered;
            full = held-not_empty pre (leaf a) post l;
            records_are = items_are ∙ ap (replace_leaf a) (sym (flat_is ∙ ap flat e));
          }
      | gap pre post e i v t below above room ↦
          absurd (
            cc
              (sym (ap (lookup_leaf key) (ap flat e) ∙ lookup-gap key pre post below above) ∙ same))
      | under pre t post e i v b below above ↦
          let (n', en, ht, _) = Under-suc z n t (subtree_at z n es l p pre t post h e) in
          let found_under =
            sym (ap (lookup_leaf key) (ap flat e) ∙ lookup-under key pre t post below above)
            ∙ same in
          let u =
            update_in-Updates z k n' r t key value held_value seen (omega arith) valid ht
              (Sorted-subtree pre t post (rw e at sorted)) found_under in
          let put =
            ap (λ xs. set xs (length pre) (tree u.changed)) e
            ∙ set-append pre (tree t) (tree u.changed) post in
          let under_it : Under z n u.changed = rw en (u.layered, u.full) in
          let (layered, items_are) =
            subtree_changed z n a pre t u.changed post l by.knows under_it u.records_are
              (rw e at by.alternates) (rw e at by.entries_at) below above in
          record {
            changed = from_entries (pre ++ tree u.changed ∷ post) l;
            runs =
                rw valid (
                  rw (index_of-loaded r es l p key seen) (rw v (rw b (rw (u.runs) (rw put refl)))));
            layered = layered;
            full = held-not_empty pre (tree u.changed) post l;
            records_are = items_are ∙ ap (replace_leaf a) (sym (flat_is ∙ ap flat e));
          }
    ]

pub update_in-missing :
    (z : Str → ℕ) (k n : ℕ) (r : Reader) (m : Mst) (key : Str) (value : Cid) (seen : List Cid)
    → n < k
    → ensure_valid_key key ≡ ok tt
    → Layered z n m
    → Sorted (items m)
    → lookup_leaf key (items m) ≡ none
    → update_in k r m key value seen ≡ err (Error.key_missing key)
unfolding update_in update_here update_under items
update_in-missing z zero n r m key value seen d valid h s absent = absurd (omega arith)
update_in-missing z (suc k) n r (mst unread l p) key value seen d valid h s absent =
    absurd (Layered-by z n h).is_loaded
update_in-missing z (suc k) n r (mst (loaded es) l p) key value seen d valid h s absent =
    let flat_is = items_in-flat es in
    let by = Layered-by z n h in
    let sorted = subst Sorted flat_is s in
    let same = sym (ap (lookup_leaf key) flat_is) ∙ absent in
    elim (spot key (to_list es) by.alternates sorted) [
      | hit pre b post e at i v below above ↦
          absurd (cc (same, ap (lookup_leaf key) (ap flat e) ∙ lookup-hit key pre b post below at))
      | gap pre post e i v t below above room ↦
          rw valid (rw (index_of-loaded r es l p key seen) (rw v (rw t refl)))
      | under pre t post e i v b below above ↦
          let (n', en, ht, _) = Under-suc z n t (subtree_at z n es l p pre t post h e) in
          let none_under =
            sym (ap (lookup_leaf key) (ap flat e) ∙ lookup-under key pre t post below above)
            ∙ same in
          let ih =
            update_in-missing z k n' r t key value seen (omega arith) valid ht
              (Sorted-subtree pre t post (rw e at sorted)) none_under in
          rw valid (rw (index_of-loaded r es l p key seen) (rw v (rw b (rw ih refl))))
    ]

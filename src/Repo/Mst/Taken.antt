-- ===== src/Repo/Mst/Taken.antt =====
-- `add` refuses a key that the tree holds: it comes down to the node that holds it, which is on the key's layer.
use mathlib.Core.Path.{subst}
use manapds.Prelude.{
  List, Option, Str, ap, arith, false, ltb, lt→ltb, refl, some, suc, sym, true, zero, ℕ, ◌+◌, ◌<◌,
  ◌∙◌, ◌∷◌, ◌≡◌, ◌≤◌,
}
use manapds.Prelude.Result.{err}
use manapds.Repo.{Cid, Error}
use manapds.Repo.Mst.{Mst, mst, unread, loaded, Entries, leaf, to_list, Reader, Read}
use manapds.Repo.Mst.Key.{leading_zeros}
use manapds.Repo.Mst.Node.{position_of}
use manapds.Repo.Mst.Edit.{insert, split_around, insert_within}
use manapds.Repo.Mst.Items.{items, flat, items_in-flat, Sorted, lookup_leaf}
use manapds.Repo.Mst.Spot.{hit, gap, under, spot, All-back}
use manapds.Repo.Mst.Layered.{Layered, LayeredBy, EntryAt, Under, Layered-by, by-Layered}
use manapds.Repo.Mst.Lookup.{lookup-gap, lookup-under, Sorted-subtree, subtree_at, index_of-loaded}
use manapds.Repo.Mst.Raise.{layer-known}

-- A node's leaves are on its layer, and those under it lower.
pub lookup-layer :
    (z : Str → ℕ) (n : ℕ) (m : Mst) (key : Str) (value : Cid)
    → Layered z n m
    → Sorted (items m)
    → lookup_leaf key (items m) ≡ some value
    → z key ≤ n
unfolding items
lookup-layer z n (mst unread l p) key value h s found = absurd (Layered-by z n h).is_loaded
lookup-layer z zero (mst (loaded es) l p) key value h s found =
    let flat_is = items_in-flat es in
    let same = sym (ap (lookup_leaf key) flat_is) ∙ found in
    elim (spot key (to_list es) (Layered-by z zero h).alternates (subst Sorted flat_is s)) [
      | hit pre a post e at i v below above ↦
          let level =
            (All-back (EntryAt z 0 (Under z 0)) pre (leaf a ∷ post)
              (rw e at (Layered-by z zero h).entries_at)).0 in
          let key_level : z key ≡ 0 = rw (← at) level in omega arith
      | gap pre post e i v t below above room ↦
          absurd (
            cc
              (sym (ap (lookup_leaf key) (ap flat e) ∙ lookup-gap key pre post below above) ∙ same))
      | under pre t post e i v b below above ↦ absurd (subtree_at z zero es l p pre t post h e)
    ]
lookup-layer z (suc n) (mst (loaded es) l p) key value h s found =
    let flat_is = items_in-flat es in
    let sorted = subst Sorted flat_is s in
    let same = sym (ap (lookup_leaf key) flat_is) ∙ found in
    elim (spot key (to_list es) h.alternates sorted) [
      | hit pre a post e at i v below above ↦
          let level =
            (All-back (EntryAt z (suc n) (Under z (suc n))) pre (leaf a ∷ post)
              (rw e at h.entries_at)).0 in
          let key_level : z key ≡ suc n = rw (← at) level in omega arith
      | gap pre post e i v t below above room ↦
          absurd (
            cc
              (sym (ap (lookup_leaf key) (ap flat e) ∙ lookup-gap key pre post below above) ∙ same))
      | under pre t post e i v b below above ↦
          let found_under =
            sym (ap (lookup_leaf key) (ap flat e) ∙ lookup-under key pre t post below above)
            ∙ same in
          let low : z key ≤ n =
            lookup-layer z n t key value (subtree_at z (suc n) es l p pre t post h e).0
              (Sorted-subtree pre t post (rw e at sorted)) found_under in
          omega arith
    ]

module _ (z : Str → ℕ) (es : Entries) (l : Option ℕ) (p : Option Cid) (key : Str)
    (value held_value : Cid) (seen : List Cid) (ins : Mst → Read Mst)
    (split : Mst → Read (Option Mst × Option Mst)) (s : Sorted (flat (to_list es)))
    (found : lookup_leaf key (flat (to_list es)) ≡ some held_value) where
  within_taken :
      (n : ℕ)
      → LayeredBy z n (Under z n) (mst (loaded es) l p)
      → ((k : ℕ) (t : Mst)
          → n ≡ suc k
          → Layered z k t
          → Sorted (items t)
          → lookup_leaf key (items t) ≡ some held_value
          → (z key ≤ k) × (ins t seen ≡ err (Error.key_exists key)))
      → insert_within ins split
          (mst (loaded es) l p)
          (position_of key (to_list es))
          key
          value
          (z key)
          n
          seen
        ≡ err (Error.key_exists key)
  unfolding insert_within
  within_taken zero by deeper = elim (spot key (to_list es) by.alternates s) [
    | hit pre a post e at i v below above ↦
        let level : ltb (z key) 0 ≡ false = ground arith in rw level (rw v refl)
    | gap pre post e i v t below above room ↦
        absurd (
          cc (sym (ap (lookup_leaf key) (ap flat e) ∙ lookup-gap key pre post below above) ∙ found))
    | under pre t post e i v b below above ↦
        absurd (subtree_at z zero es l p pre t post (by-Layered z zero by) e)
  ]
  within_taken (suc n) by deeper = elim (spot key (to_list es) by.alternates s) [
    | hit pre a post e at i v below above ↦
        let on =
          (All-back (EntryAt z (suc n) (Under z (suc n))) pre (leaf a ∷ post)
            (rw e at by.entries_at)).0 in
        let key_level : z key ≡ suc n = rw (← at) on in
        let level : ltb (z key) (suc n) ≡ false = ground arith in rw level (rw v refl)
    | gap pre post e i v t below above room ↦
        absurd (
          cc (sym (ap (lookup_leaf key) (ap flat e) ∙ lookup-gap key pre post below above) ∙ found))
    | under pre t post e i v b below above ↦
        let found_under =
          sym (ap (lookup_leaf key) (ap flat e) ∙ lookup-under key pre t post below above)
          ∙ found in
        let (low, refused) =
          deeper n t refl (subtree_at z (suc n) es l p pre t post by e).0
            (Sorted-subtree pre t post (rw e at s)) found_under in
        let level : ltb (z key) (suc n) ≡ true = lt→ltb (z key) (suc n) (omega arith) in
        rw level (rw b (rw refused refl))
  ]

pub insert-taken :
    (k n : ℕ) (r : Reader) (m : Mst) (key : Str) (value held_value : Cid) (seen : List Cid)
    → n + 1 < k
    → Layered (leading_zeros r.sha256) n m
    → Sorted (items m)
    → lookup_leaf key (items m) ≡ some held_value
    → insert k r m key value (leading_zeros r.sha256 key) seen ≡ err (Error.key_exists key)
unfolding insert items
insert-taken zero n r m key value held_value seen d h s found = absurd (omega arith)
insert-taken (suc zero) n r m key value held_value seen d h s found = absurd (omega arith)
insert-taken (suc (suc k)) n r (mst unread l p) key value held_value seen d h s found =
    absurd (Layered-by (leading_zeros r.sha256) n h).is_loaded
insert-taken (suc (suc k)) n r (mst (loaded es) l p) key value held_value seen d h s found =
    let z = leading_zeros r.sha256 in
    let m : Mst = mst (loaded es) l p in
    let sorted = subst Sorted (items_in-flat es) s in
    let flat_found = sym (ap (lookup_leaf key) (items_in-flat es)) ∙ found in
    let most : z key ≤ n = lookup-layer z n m key held_value h s found in
    let level : ltb n (z key) ≡ false = ground arith in
    rw (layer-known z k n r m seen h) (
      rw level (
        rw (index_of-loaded r es l p key seen) (
          within_taken z es l p key value held_value seen
            (λ t. insert (suc k) r t key value (z key))
            (λ subtree. split_around (suc k) r subtree key) sorted flat_found n (Layered-by z n h)
            (λ j t e ht st ft. (
              lookup-layer z j t key held_value ht st ft,
              insert-taken (suc k) j r t key value held_value seen (omega arith) ht st ft,
            )))))

-- ===== src/Repo/Mst/Add.antt =====
-- `add` puts a record into a tree that does not hold its key, and refuses no valid key for any other
-- reason than that it is taken.
use mathlib.Core.Path.{subst}
use manapds.Prelude.{
  Bool-cases, List, Str, ap, arith, inl, inr, ltb, ltb→lt, max, none, suc, sym, true, zero, ℕ, ◌+◌,
  ◌-◌, ◌<◌, ◌∙◌, ◌≡◌, ◌≤◌,
}
use manapds.Repo.{Cid}
use manapds.Repo.Mst.{Read, Mst, mst, unread, loaded, Reader}
use manapds.Repo.Mst.Key.{leading_zeros}
use manapds.Repo.Mst.Edit.{insert}
use manapds.Repo.Mst.Items.{items, items_in-flat, Sorted, lookup_leaf}
use manapds.Repo.Mst.Layered.{Layered, Layered-by}
use manapds.Repo.Mst.Lookup.{index_of-loaded}
use manapds.Repo.Mst.Raise.{layer-known}
use manapds.Repo.Mst.Insert.{Inserts, record_at, insert_above-Inserts}
use manapds.Repo.Mst.Within.{within_here, within_below}

-- Adding above everything, where the tree's layer is below the key's.
above_case :
    (k n : ℕ) (r : Reader) (m : Mst) (key : Str) (value : Cid) (seen : List Cid)
    → n + 1 < suc (suc k)
    → Layered (leading_zeros r.sha256) n m
    → Sorted (items m)
    → lookup_leaf key (items m) ≡ none
    → ltb n (leading_zeros r.sha256 key) ≡ true
    → Inserts
        (leading_zeros r.sha256)
        (max n (leading_zeros r.sha256 key))
        (record_at key value)
        (items m)
        seen
        (insert (suc (suc k)) r m key value (leading_zeros r.sha256 key) seen)
unfolding insert
above_case k n r m key value seen d h s absent higher =
    let z = leading_zeros r.sha256 in
    let lt = ltb→lt n (z key) higher in
    let j : ℕ = z key - n - 1 in
    let q : z key ≡ suc (n + j) = omega arith in
    let top : max n (z key) ≡ z key = omega arith in
    let done = insert_above-Inserts z (suc k) n j r m key value seen (omega arith) h s absent q in
    rw (layer-known z k n r m seen h) (rw higher (rw top (rw (← q) at done)))

-- Inserting keeps a tree's records in order, with one more, on the tree's layer or raised to the key's.
pub insert-Inserts :
    (k n : ℕ) (r : Reader) (m : Mst) (key : Str) (value : Cid) (seen : List Cid)
    → n + 1 < k
    → Layered (leading_zeros r.sha256) n m
    → Sorted (items m)
    → lookup_leaf key (items m) ≡ none
    → Inserts
        (leading_zeros r.sha256)
        (max n (leading_zeros r.sha256 key))
        (record_at key value)
        (items m)
        seen
        (insert k r m key value (leading_zeros r.sha256 key) seen)
unfolding insert items
insert-Inserts zero n r m key value seen d h s absent = absurd (omega arith)
insert-Inserts (suc zero) n r m key value seen d h s absent = absurd (omega arith)
insert-Inserts (suc (suc k)) n r (mst unread l p) key value seen d h s absent =
    absurd (Layered-by (leading_zeros r.sha256) n h).is_loaded
insert-Inserts (suc (suc k)) zero r (mst (loaded es) l p) key value seen d h s absent =
    let z = leading_zeros r.sha256 in
    let m : Mst = mst (loaded es) l p in
    elim (Bool-cases (ltb 0 (z key))) [
      | inl higher ↦ above_case k 0 r m key value seen d h s absent higher
      | inr level ↦
          let q : z key ≡ 0 = ground arith in
          let top : max 0 0 ≡ 0 = omega arith in
          let sorted = subst Sorted (items_in-flat es) s in
          let none_flat = ap (lookup_leaf key) (sym (items_in-flat es)) ∙ absent in
          let done =
            within_here z (suc k) r es l p key value seen (λ t. insert (suc k) r t key value 0)
              sorted none_flat 0 (omega arith) (Layered-by z 0 h) q in
          rw (layer-known z k 0 r m seen h)
            (rw level (rw (index_of-loaded r es l p key seen) (rw (q, top, items_in-flat es) done)))
    ]
insert-Inserts (suc (suc k)) (suc n) r (mst (loaded es) l p) key value seen d h s absent =
    let z = leading_zeros r.sha256 in
    let m : Mst = mst (loaded es) l p in
    let by = Layered-by z (suc n) h in
    let sorted = subst Sorted (items_in-flat es) s in
    let none_flat = ap (lookup_leaf key) (sym (items_in-flat es)) ∙ absent in
    elim (Bool-cases (ltb (suc n) (z key))) [
      | inl higher ↦ above_case k (suc n) r m key value seen d h s absent higher
      | inr level ↦
          let at_most : z key ≤ suc n = ground arith in
          let top : max (suc n) (z key) ≡ suc n = omega arith in
          let ins : Mst → Read Mst = λ t. insert (suc k) r t key value (z key) in
          rw (layer-known z k (suc n) r m seen h) (
            rw level (
              rw (index_of-loaded r es l p key seen) (
                rw (top, items_in-flat es)
                  (elim (Bool-cases (ltb (z key) (suc n))) [
                    | inl lower ↦
                        let low : z key < suc n = ltb→lt (z key) (suc n) lower in
                        let max_low : max n (z key) ≡ n = omega arith in
                        within_below z (suc k) r es l p key value seen ins sorted none_flat n
                          (z key) by low
                          (λ t ht st ab.
                            rw (← max_low)
                              (insert-Inserts (suc k) n r t key value seen (omega arith) ht st ab))
                    | inr same ↦
                        let q : z key ≡ suc n = ground arith in
                        rw q (
                          within_here z (suc k) r es l p key value seen
                            (λ t. insert (suc k) r t key value (suc n)) sorted none_flat (suc n)
                            (omega arith) by q)
                  ]))))
    ]

-- ===== src/Repo/Mst/Merged.antt =====
-- What `dropped` lists of a node of records, beside another one on its layer.
use mathlib.Core.Path.{subst}
use manapds.Prelude.Tests.{if_keeps}
use manapds.Prelude.{
  Bool-cases, List, [], arith, false, if◌then◌else◌, inl, inr, length, not, refl, some, suc, zero,
  ℕ, ◌&&◌, ◌+◌, ◌<◌, ◌∙◌, ◌∷◌, ◌≡◌,
}
use manapds.Prelude.Bytes.{str_eq, str_lt}
use manapds.Prelude.Eq.{str_eq→eq}
use manapds.Prelude.Result.{ok}
use manapds.Repo.{Cid}
use manapds.Repo.Mst.{Leaf, Entry, Reader}
use manapds.Repo.Mst.Node.{is_seen}
use manapds.Repo.Mst.Walk.{Diff, diff_add, diff_remove, at}
use manapds.Repo.Mst.Dropped.{
  Walks, rounds, round, both_round, leaves_round, same_key, drop_left, gain_right,
}
use manapds.Repo.Mst.Changed.{IsBetween, diff_remove-IsBetween, diff_add-IsBetween, both-IsBetween}
use manapds.Repo.Mst.Standing.{IsOn, standing, next, at-on, key-on, cid-on, advance-on}

-- The blocks that a list of records reaches, beside some others.
abbrev pub reached : List Cid → List Leaf → List Cid
reached cids [] = cids
reached cids (a ∷ ls) = reached (a.value ∷ cids) ls

-- No block is reached twice.
abbrev pub Apart : List Cid → List Leaf → Type 0
Apart cids [] = Unit
Apart cids (a ∷ ls) = (is_seen a.value cids ≡ false) × Apart (a.value ∷ cids) ls

module _ (r : Reader) (n : ℕ) (es es' : List Entry) where
  abbrev walks : Diff → ℕ → List Leaf → ℕ → List Leaf → Walks
  walks d i ls j ks = record { diff = d; left = standing es n i ls; right = standing es' n j ks }

  drop_left-walks :
      (d : Diff) (i j : ℕ) (a : Leaf) (ls ks : List Leaf)
      → IsOn es i (a ∷ ls)
      → drop_left r (walks d i (a ∷ ls) j ks) ≡ ok (walks (diff_remove a.value d) (suc i) ls j ks)
  unfolding drop_left
  drop_left-walks d i j a ls ks h =
      rw (drop_left, cid-on r es n i a ls h, advance-on r es n i a ls h) refl

  gain_right-walks :
      (d : Diff) (i j : ℕ) (b : Leaf) (ls ks : List Leaf)
      → IsOn es' j (b ∷ ks)
      → gain_right r (walks d i ls j (b ∷ ks)) ≡ ok (walks (diff_add b.value d) i ls (suc j) ks)
  unfolding gain_right
  gain_right-walks d i j b ls ks h =
      rw (gain_right, cid-on r es' n j b ks h, advance-on r es' n j b ks h) refl

  exchanged_by : Diff → Leaf → Leaf → Diff
  exchanged_by d a b =
      if str_eq a.value b.value then d else diff_add b.value (diff_remove a.value d)

  same_key-walks :
      (d : Diff) (i j : ℕ) (a b : Leaf) (ls ks : List Leaf)
      → IsOn es i (a ∷ ls)
      → IsOn es' j (b ∷ ks)
      → same_key r (walks d i (a ∷ ls) j (b ∷ ks))
        ≡ ok (walks (exchanged_by d a b) (suc i) ls (suc j) ks)
  unfolding same_key exchanged_by
  same_key-walks d i j a b ls ks h h' =
      rw
        (
          same_key,
          cid-on r es n i a ls h,
          cid-on r es' n j b ks h',
          advance-on r es n i a ls h,
          advance-on r es' n j b ks h',
        )
        refl

  rounds_left :
      (f : ℕ) (d : Diff) (i j : ℕ) (a : Leaf) (ls : List Leaf)
      → IsOn es i (a ∷ ls)
      → rounds (suc f) r (walks d i (a ∷ ls) j [])
        ≡ rounds f r (walks (diff_remove a.value d) (suc i) ls j [])
  unfolding rounds round at
  rounds_left f d i j a ls h =
      rw (rounds, at-on es n i a ls h, drop_left-walks d i j a ls [] h) refl

  rounds_right :
      (f : ℕ) (d : Diff) (i j : ℕ) (b : Leaf) (ks : List Leaf)
      → IsOn es' j (b ∷ ks)
      → rounds (suc f) r (walks d i [] j (b ∷ ks))
        ≡ rounds f r (walks (diff_add b.value d) i [] (suc j) ks)
  unfolding rounds round at
  rounds_right f d i j b ks h =
      rw (rounds, at-on es' n j b ks h, gain_right-walks d i j b [] ks h) refl

  -- A round with records on both sides: the two together, or the one whose key comes first.
  leaves_next : Diff → ℕ → ℕ → Leaf → Leaf → List Leaf → List Leaf → Walks
  leaves_next d i j a b ls ks =
      if str_eq a.key b.key
      then walks (exchanged_by d a b) (suc i) ls (suc j) ks
      else if str_lt a.key b.key
      then walks (diff_remove a.value d) (suc i) ls j (b ∷ ks)
      else walks (diff_add b.value d) i (a ∷ ls) (suc j) ks

  leaves_round-walks :
      (d : Diff) (i j : ℕ) (a b : Leaf) (ls ks : List Leaf)
      → IsOn es i (a ∷ ls)
      → IsOn es' j (b ∷ ks)
      → leaves_round r (walks d i (a ∷ ls) j (b ∷ ks)) (some a.key) (some b.key)
        ≡ ok (leaves_next d i j a b ls ks)
  unfolding leaves_round leaves_next
  leaves_round-walks d i j a b ls ks h h' = elim (Bool-cases (str_eq a.key b.key)) [
    | inl same ↦ rw same (same_key-walks d i j a b ls ks h h')
    | inr other ↦ elim (Bool-cases (str_lt a.key b.key)) [
      | inl first ↦ rw (other, first) (drop_left-walks d i j a ls (b ∷ ks) h)
      | inr later ↦ rw (other, later) (gain_right-walks d i j b (a ∷ ls) ks h')
    ]
  ]

  rounds_both :
      (f : ℕ) (d : Diff) (i j : ℕ) (a b : Leaf) (ls ks : List Leaf)
      → IsOn es i (a ∷ ls)
      → IsOn es' j (b ∷ ks)
      → rounds (suc f) r (walks d i (a ∷ ls) j (b ∷ ks)) ≡ rounds f r (leaves_next d i j a b ls ks)
  unfolding rounds round both_round
  rounds_both f d i j a b ls ks h h' =
      rw
        (
          rounds,
          at-on es n i a ls h,
          at-on es' n j b ks h',
          key-on es n i a ls h,
          key-on es' n j b ks h',
          leaves_round-walks d i j a b ls ks h h',
        )
        refl

  exchanged_by-IsBetween :
      (d : Diff) (a b : Leaf) (before after : List Cid)
      → is_seen a.value before ≡ false
      → is_seen b.value after ≡ false
      → IsBetween d before after
      → IsBetween (exchanged_by d a b) (a.value ∷ before) (b.value ∷ after)
  unfolding exchanged_by
  exchanged_by-IsBetween d a b before after new new' h =
      elim (Bool-cases (str_eq a.value b.value)) [
        | inl same ↦
            let e = str_eq→eq a.value b.value same in
            rw same (
              subst (λ v. IsBetween d (a.value ∷ before) (v ∷ after)) e
                (both-IsBetween a.value d before after new (rw e new') h))
        | inr other ↦ rw other (
            diff_add-IsBetween b.value (diff_remove a.value d) (a.value ∷ before) after new'
              (diff_remove-IsBetween a.value d before after new h))
      ]

  -- What is left of two walks lists the blocks of the one that are not the other's, in a round for each
  -- record at most.
  abbrev IsListed : ℕ → Walks → List Cid → List Cid → Type 0
  IsListed f s before after =
      (gone : List Cid) × (rounds f r s ≡ ok (some gone))
      × ((x : Cid) → is_seen x gone ≡ (is_seen x before && not (is_seen x after)))

  pub rounds-IsListed :
      (f : ℕ) (d : Diff) (i j : ℕ) (ls ks : List Leaf) (before after : List Cid)
      → length ls + length ks < f
      → IsOn es i ls
      → IsOn es' j ks
      → Apart before ls
      → Apart after ks
      → IsBetween d before after
      → IsListed f (walks d i ls j ks) (reached before ls) (reached after ks)
  unfolding rounds round at leaves_next
  rounds-IsListed zero d i j ls ks before after enough h h' new new' between = absurd (omega arith)
  rounds-IsListed (suc f) d i j [] [] before after enough h h' new new' between =
      (d.removed, refl, between.removed_is)
  rounds-IsListed (suc f) d i j (a ∷ ls) [] before after enough h h' new new' between =
      let (gone, run, lists) =
        rounds-IsListed f (diff_remove a.value d) (suc i) j ls [] (a.value ∷ before) after
          (omega arith) (next es i a ls h) h' new.1 new'
          (diff_remove-IsBetween a.value d before after new.0 between) in
      (gone, rounds_left f d i j a ls h ∙ run, lists)
  rounds-IsListed (suc f) d i j [] (b ∷ ks) before after enough h h' new new' between =
      let (gone, run, lists) =
        rounds-IsListed f (diff_add b.value d) i (suc j) [] ks before (b.value ∷ after)
          (omega arith) h (next es' j b ks h') new new'.1
          (diff_add-IsBetween b.value d before after new'.0 between) in
      (gone, rounds_right f d i j b ks h' ∙ run, lists)
  rounds-IsListed (suc f) d i j (a ∷ ls) (b ∷ ks) before after enough h h' new new' between =
      let both =
        rounds-IsListed f (exchanged_by d a b) (suc i) (suc j) ls ks (a.value ∷ before)
          (b.value ∷ after) (omega arith) (next es i a ls h) (next es' j b ks h') new.1 new'.1
          (exchanged_by-IsBetween d a b before after new.0 new'.0 between) in
      let left =
        rounds-IsListed f (diff_remove a.value d) (suc i) j ls (b ∷ ks) (a.value ∷ before) after
          (omega arith) (next es i a ls h) h' new.1 new'
          (diff_remove-IsBetween a.value d before after new.0 between) in
      let right =
        rounds-IsListed f (diff_add b.value d) i (suc j) (a ∷ ls) ks before (b.value ∷ after)
          (omega arith) h (next es' j b ks h') new new'.1
          (diff_add-IsBetween b.value d before after new'.0 between) in
      let P : Walks → Type 0 =
        λ s. IsListed f s (reached before (a ∷ ls)) (reached after (b ∷ ks)) in
      let (gone, run, lists) =
        if_keeps P (str_eq a.key b.key) _ _ both (if_keeps P (str_lt a.key b.key) _ _ left right) in
      (gone, rounds_both f d i j a b ls ks h h' ∙ run, lists)

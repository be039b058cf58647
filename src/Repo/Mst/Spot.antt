-- ===== src/Repo/Mst/Spot.antt =====
-- Where a key falls among the entries of a node: on its own leaf, in a gap, or under a subtree.
use manapds.Prelude.{
  All, Bool, Bool-cases, List, Option, Str, [], ap, false, get_elem?, inl, inr, length, none, refl,
  some, suc, true, zero, ℕ, ◌++◌, ◌∙◌, ◌∷◌, ◌≡◌,
}
use mathlib.Core.Path.{subst}
use mathlib.Core.List.{append-nil}
use manapds.Prelude.Bytes.{str_eq, str_lt}
use manapds.Prelude.Eq.{str_eq→eq}
use manapds.Prelude.Order.{str_lt_trans, str_lt_total}
use manapds.Repo.Mst.{Leaf, Mst, Entry, leaf, tree}
use manapds.Repo.Mst.Node.{position_of}
use manapds.Repo.Mst.Find.{value_of, placed, tree_before}
use manapds.Repo.Mst.Items.{items, flat, Below, Above, Sorted}

-- No two subtrees stand side by side; the flag says that a subtree stands before.
abbrev pub Alternates : Bool → List Entry → Type 0
Alternates after_tree [] = Unit
Alternates after_tree (leaf a ∷ es) = Alternates false es
Alternates after_tree (tree m ∷ es) = (after_tree ≡ false) × Alternates true es

pub Above-trans : (k j : Str) (xs : List Leaf) → str_lt k j ≡ true → Above j xs → Above k xs
Above-trans k j [] h a = tt
Above-trans k j (x ∷ xs) h a = (str_lt_trans k j x.key h a.0, Above-trans k j xs h a.1)

pub Below-trans : (k j : Str) (xs : List Leaf) → str_lt k j ≡ true → Below k xs → Below j xs
Below-trans k j [] h a = tt
Below-trans k j (x ∷ xs) h a = (str_lt_trans x.key k j a.0 h, Below-trans k j xs h a.1)

pub All-append {ℓ κ} :
    {A : Type ℓ} (P : A → Type κ) (xs ys : List A) → All P xs → All P ys → All P (xs ++ ys)
All-append P [] ys h k = k
All-append P (x ∷ xs) ys h k = (h.0, All-append P xs ys h.1 k)

pub All-front {ℓ κ} : {A : Type ℓ} (P : A → Type κ) (xs ys : List A) → All P (xs ++ ys) → All P xs
All-front P [] ys h = tt
All-front P (x ∷ xs) ys h = (h.0, All-front P xs ys h.1)

pub All-back {ℓ κ} : {A : Type ℓ} (P : A → Type κ) (xs ys : List A) → All P (xs ++ ys) → All P ys
All-back P [] ys h = h
All-back P (x ∷ xs) ys h = All-back P xs ys h.1

pub Sorted-front : (xs ys : List Leaf) → Sorted (xs ++ ys) → Sorted xs
Sorted-front [] ys s = tt
Sorted-front (a ∷ xs) ys s =
    (All-front (λ x. str_lt a.key x.key ≡ true) xs ys s.0, Sorted-front xs ys s.1)

pub Sorted-back : (xs ys : List Leaf) → Sorted (xs ++ ys) → Sorted ys
Sorted-back [] ys s = s
Sorted-back (a ∷ xs) ys s = Sorted-back xs ys s.1

-- What stands before a record of a sorted list is below it.
pub Sorted-Below :
    (xs : List Leaf) (a : Leaf) (ys : List Leaf) → Sorted (xs ++ a ∷ ys) → Below a.key xs
Sorted-Below [] a ys s = tt
Sorted-Below (x ∷ xs) a ys s =
    ((All-back (λ y. str_lt x.key y.key ≡ true) xs (a ∷ ys) s.0).0, Sorted-Below xs a ys s.1)

abbrev pub shift : Option (ℕ × Mst) → Option (ℕ × Mst)
shift none = none
shift (some (i, m)) = some (suc i, m)

placed-suc : (i : ℕ) (o : Option Entry) → placed (suc i) o ≡ shift (placed i o)
placed-suc i none = refl
placed-suc i (some (leaf a)) = refl
placed-suc i (some (tree m)) = refl

pub tree_before-suc :
    (i : ℕ) (e : Entry) (es : List Entry)
    → tree_before (suc (suc i)) (e ∷ es) ≡ shift (tree_before (suc i) es)
tree_before-suc i e es = placed-suc i (get_elem? es i)

pub tree_before-leaf :
    (i : ℕ) (a : Leaf) (es : List Entry)
    → tree_before (suc i) (leaf a ∷ es) ≡ shift (tree_before i es)
tree_before-leaf zero a es = refl
tree_before-leaf (suc i) a es = tree_before-suc i (leaf a) es

pub data Spot (key : Str) (es : List Entry) : Type 0 where
  hit :
      (pre : List Entry) (a : Leaf) (post : List Entry)
      → es ≡ pre ++ leaf a ∷ post
      → a.key ≡ key
      → position_of key es ≡ length pre
      → value_of key (get_elem? es (position_of key es)) ≡ some a.value
      → Below key (flat pre)
      → Above key (flat post)
      → Spot key es
  gap :
      (pre post : List Entry)
      → es ≡ pre ++ post
      → position_of key es ≡ length pre
      → value_of key (get_elem? es (position_of key es)) ≡ none
      → tree_before (position_of key es) es ≡ none
      → Below key (flat pre)
      → Above key (flat post)
      → ((x : Mst) → Alternates false (pre ++ tree x ∷ post))
      → Spot key es
  under :
      (pre : List Entry) (m : Mst) (post : List Entry)
      → es ≡ pre ++ tree m ∷ post
      → position_of key es ≡ suc (length pre)
      → value_of key (get_elem? es (position_of key es)) ≡ none
      → tree_before (position_of key es) es ≡ some (length pre, m)
      → Below key (flat pre)
      → Above key (flat post)
      → Spot key es

Spot-leaf :
    (key : Str) (a : Leaf) (es : List Entry)
    → str_lt a.key key ≡ true
    → Spot key es
    → Spot key (leaf a ∷ es)
unfolding position_of flat
Spot-leaf key a es lt (hit pre b post e same i v below above) =
    hit (leaf a ∷ pre) b post (ap (◌∷◌ (leaf a)) e) same (rw lt (ap suc i)) (rw lt v) (lt, below)
      above
Spot-leaf key a es lt (gap pre post e i v t below above room) =
    gap (leaf a ∷ pre) post (ap (◌∷◌ (leaf a)) e) (rw lt (ap suc i)) (rw lt v)
      (rw lt (tree_before-leaf (position_of key es) a es ∙ ap shift t)) (lt, below) above room
Spot-leaf key a es lt (under pre m post e i v t below above) =
    under (leaf a ∷ pre) m post (ap (◌∷◌ (leaf a)) e) (rw lt (ap suc i)) (rw lt v)
      (rw lt (tree_before-leaf (position_of key es) a es ∙ ap shift t)) (lt, below) above

shift_twice :
    (i : ℕ) (m : Mst) (a : Leaf) (es : List Entry)
    → tree_before (suc (suc i)) (tree m ∷ leaf a ∷ es) ≡ shift (shift (tree_before i es))
shift_twice i m a es = tree_before-suc i (tree m) (leaf a ∷ es) ∙ ap shift (tree_before-leaf i a es)

Spot-tree :
    (key : Str) (m : Mst) (a : Leaf) (es : List Entry)
    → str_lt a.key key ≡ true
    → Below key (items m)
    → Spot key es
    → Spot key (tree m ∷ leaf a ∷ es)
unfolding position_of flat
Spot-tree key m a es lt under_m (hit pre b post e same i v below above) =
    hit (tree m ∷ leaf a ∷ pre) b post (ap (λ xs. tree m ∷ leaf a ∷ xs) e) same
      (rw lt (ap (λ (n : ℕ). suc (suc n)) i)) (rw lt v)
      (All-append (λ x. str_lt x.key key ≡ true) (items m) (a ∷ flat pre) under_m (lt, below)) above
Spot-tree key m a es lt under_m (gap pre post e i v t below above room) =
    gap (tree m ∷ leaf a ∷ pre) post (ap (λ xs. tree m ∷ leaf a ∷ xs) e)
      (rw lt (ap (λ (n : ℕ). suc (suc n)) i)) (rw lt v)
      (rw lt (shift_twice (position_of key es) m a es ∙ ap (λ o. shift (shift o)) t))
      (All-append (λ x. str_lt x.key key ≡ true) (items m) (a ∷ flat pre) under_m (lt, below)) above
      (λ x. (refl, room x))
Spot-tree key m a es lt under_m (under pre n post e i v t below above) =
    under (tree m ∷ leaf a ∷ pre) n post (ap (λ xs. tree m ∷ leaf a ∷ xs) e)
      (rw lt (ap (λ (n : ℕ). suc (suc n)) i)) (rw lt v)
      (rw lt (shift_twice (position_of key es) m a es ∙ ap (λ o. shift (shift o)) t))
      (All-append (λ x. str_lt x.key key ≡ true) (items m) (a ∷ flat pre) under_m (lt, below)) above

-- A first leaf that is not below the key is the key's own, or above it with all that follows.
Spot-first :
    (key : Str) (a : Leaf) (es : List Entry)
    → str_lt a.key key ≡ false
    → Above a.key (flat es)
    → Alternates false es
    → Spot key (leaf a ∷ es)
unfolding position_of flat
Spot-first key a es ge above alt = elim (Bool-cases (str_eq a.key key)) [
  | inl same ↦
      hit [] a es refl (str_eq→eq a.key key same) (rw ge) (rw ge (rw same)) tt
        (subst (λ k. Above k (flat es)) (str_eq→eq a.key key same) above)
  | inr other ↦
      let gt = str_lt_total a.key key ge other in
      gap [] (leaf a ∷ es) refl (rw ge) (rw ge (rw other)) (rw ge) tt
        (gt, Above-trans key a.key (flat es) gt above) (λ x. (refl, alt))
]

Spot-under :
    (key : Str) (m : Mst) (a : Leaf) (es : List Entry)
    → str_lt a.key key ≡ false
    → Below a.key (items m)
    → Above a.key (flat es)
    → Spot key (tree m ∷ leaf a ∷ es)
unfolding position_of flat
Spot-under key m a es ge below above = elim (Bool-cases (str_eq a.key key)) [
  | inl same ↦
      let e = str_eq→eq a.key key same in
      hit (tree m ∷ []) a es refl e (rw ge) (rw ge (rw same))
        (rw append-nil (subst (λ k. Below k (items m)) e below))
        (subst (λ k. Above k (flat es)) e above)
  | inr other ↦
      let gt = str_lt_total a.key key ge other in
      under [] m (leaf a ∷ es) refl (rw ge) (rw ge (rw other)) (rw ge) tt
        (gt, Above-trans key a.key (flat es) gt above)
]

-- Every key has its spot in a sorted node.
pub spot : (key : Str) (es : List Entry) → Alternates false es → Sorted (flat es) → Spot key es
unfolding flat position_of
spot key [] alt s = gap [] [] refl refl refl refl tt tt (λ x. (refl, tt))
spot key (leaf a ∷ es) alt s = elim (Bool-cases (str_lt a.key key)) [
  | inl lt ↦ Spot-leaf key a es lt (spot key es alt s.1)
  | inr ge ↦ Spot-first key a es ge s.0 alt
]
spot key (tree m ∷ []) alt s = under [] m [] refl refl refl refl tt tt
spot key (tree m ∷ tree n ∷ es) alt s = absurd (cc (alt.1.0))
spot key (tree m ∷ leaf a ∷ es) alt s =
    let below = Sorted-Below (items m) a (flat es) s in
    let later = Sorted-back (items m) (a ∷ flat es) s in
    elim (Bool-cases (str_lt a.key key)) [
      | inl lt ↦
          Spot-tree key m a es lt (Below-trans a.key key (items m) lt below)
            (spot key es alt.1 later.1)
      | inr ge ↦ Spot-under key m a es ge below later.0
    ]

-- ===== src/Repo/Mst/Records.antt =====
-- The records of a tree on their own: what an insertion does to their order and to a lookup.
use manapds.Prelude.{
  inl, inr, Bool-cases, sym, ap, List, Str, [], arith, false, if◌then◌else◌, none, refl, some, true,
  ◌∷◌, ◌≡◌,
}
use manapds.Prelude.Bytes.{str_eq, str_lt}
use manapds.Prelude.Eq.{str_eq→eq, str_eq_refl}
use manapds.Prelude.Order.{str_lt_asym, str_lt_total, str_lt_trans}
use manapds.Repo.{Cid}
use manapds.Repo.Mst.{Leaf}
use manapds.Repo.Mst.Items.{Above, Sorted, lookup_leaf, insert_leaf, replace_leaf}

pub Above-trans : (x y : Str) (xs : List Leaf) → str_lt x y ≡ true → Above y xs → Above x xs
Above-trans x y [] h k = tt
Above-trans x y (b ∷ xs) h k = (str_lt_trans x y b.key h k.0, Above-trans x y xs h k.1)

Above-insert_leaf :
    (x : Str) (a : Leaf) (xs : List Leaf)
    → str_lt x a.key ≡ true
    → Above x xs
    → Above x (insert_leaf a xs)
unfolding insert_leaf
Above-insert_leaf x a [] h k = (h, tt)
Above-insert_leaf x a (b ∷ xs) h k =
    elim (str_lt a.key b.key) as (λ t. Above x (if t then a ∷ b ∷ xs else b ∷ insert_leaf a xs)) [
      | true ↦ (h, k)
      | false ↦ (k.0, Above-insert_leaf x a xs h k.1)
    ]

pub str_eq_sym : (a b : Str) → str_eq b a ≡ false → str_eq a b ≡ false
str_eq_sym a b h = elim (Bool-cases (str_eq a b)) [
  | inr n ↦ n
  | inl y ↦ absurd (cc (h, str_eq_refl b, str_eq→eq a b y))
]

-- Where a list has no record under a key, its first has another key, and the rest has none either.
pub lookup_leaf-none :
    (key : Str) (b : Leaf) (xs : List Leaf)
    → lookup_leaf key (b ∷ xs) ≡ none
    → (str_eq b.key key ≡ false) × (lookup_leaf key xs ≡ none)
unfolding lookup_leaf
lookup_leaf-none key b xs h = ground (arith, h)

-- A record whose key is not there comes in at its place.
pub Sorted-insert_leaf :
    (a : Leaf) (xs : List Leaf)
    → Sorted xs
    → lookup_leaf a.key xs ≡ none
    → Sorted (insert_leaf a xs)
unfolding insert_leaf
Sorted-insert_leaf a [] s h = (tt, tt)
Sorted-insert_leaf a (b ∷ xs) s h = elim (Bool-cases (str_lt a.key b.key)) [
  | inl lower ↦ rw lower ((lower, Above-trans a.key b.key xs lower s.0), s)
  | inr n ↦
      let (other, rest) = lookup_leaf-none a.key b xs h in
      let higher = str_lt_total a.key b.key n (str_eq_sym a.key b.key other) in
      rw n (Above-insert_leaf b.key a xs higher s.0, Sorted-insert_leaf a xs s.1 rest)
]

-- Behind an insertion, the new key finds the new record and every other key what it found before.
pub lookup_leaf-insert_leaf :
    (key : Str) (a : Leaf) (xs : List Leaf)
    → lookup_leaf a.key xs ≡ none
    → lookup_leaf key (insert_leaf a xs)
      ≡ (if str_eq a.key key then some a.value else lookup_leaf key xs)
unfolding insert_leaf lookup_leaf
lookup_leaf-insert_leaf key a [] h = refl
lookup_leaf-insert_leaf key a (b ∷ xs) h = elim (Bool-cases (str_lt a.key b.key)) [
  | inl lower ↦ rw lower refl
  | inr n ↦
      let (other, rest) = lookup_leaf-none a.key b xs h in
      rw (n, lookup_leaf-insert_leaf key a xs rest)
        (elim (Bool-cases (str_eq a.key key)) [
          | inl same ↦ rw (← str_eq→eq a.key key same, other, str_eq_refl a.key) refl
          | inr different ↦ rw different refl
        ])
]

-- Two keys on either side of a third.
not_between : (x y w : Str) → str_lt x w ≡ true → str_lt y w ≡ false → str_lt y x ≡ false
not_between x y w low high = elim (Bool-cases (str_lt y x)) [
  | inr n ↦ n
  | inl t ↦ absurd (cc (str_lt_trans y x w t low, high))
]

insert_leaf-front :
    (a b c : Leaf) (xs : List Leaf)
    → str_eq a.key b.key ≡ false
    → str_lt a.key c.key ≡ true
    → str_lt b.key c.key ≡ true
    → insert_leaf a (insert_leaf b (c ∷ xs)) ≡ insert_leaf b (insert_leaf a (c ∷ xs))
unfolding insert_leaf
insert_leaf-front a b c xs h a_low b_low = elim (Bool-cases (str_lt a.key b.key)) [
  | inl l ↦ rw (a_low, b_low) (rw (l, str_lt_asym a.key b.key l) refl)
  | inr n ↦ rw (a_low, b_low) (rw (n, str_lt_total a.key b.key n h, a_low) refl)
]

insert_leaf-apart :
    (a b c : Leaf) (xs : List Leaf)
    → str_lt a.key c.key ≡ true
    → str_lt b.key c.key ≡ false
    → insert_leaf a (insert_leaf b (c ∷ xs)) ≡ insert_leaf b (insert_leaf a (c ∷ xs))
unfolding insert_leaf
insert_leaf-apart a b c xs a_low b_high =
    rw (a_low, b_high, a_low, not_between a.key b.key c.key a_low b_high) refl

-- The order of two insertions does not show.
pub insert_leaf_comm :
    (a b : Leaf) (xs : List Leaf)
    → str_eq a.key b.key ≡ false
    → insert_leaf a (insert_leaf b xs) ≡ insert_leaf b (insert_leaf a xs)
unfolding insert_leaf
insert_leaf_comm a b [] h = elim (Bool-cases (str_lt a.key b.key)) [
  | inl lower ↦ rw (lower, str_lt_asym a.key b.key lower) refl
  | inr n ↦ rw (n, str_lt_total a.key b.key n h) refl
]
insert_leaf_comm a b (c ∷ xs) h = elim (Bool-cases (str_lt a.key c.key)) [
  | inl p ↦ elim (Bool-cases (str_lt b.key c.key)) [
    | inl q ↦ insert_leaf-front a b c xs h p q
    | inr q ↦ insert_leaf-apart a b c xs p q
  ]
  | inr p ↦ elim (Bool-cases (str_lt b.key c.key)) [
    | inl q ↦ sym (insert_leaf-apart b a c xs q p)
    | inr q ↦ rw (p, q) (rw p (ap (◌∷◌ c) (insert_leaf_comm a b xs h)))
  ]
]

Above-replace_leaf :
    (x : Str) (a : Leaf) (xs : List Leaf) → Above x xs → Above x (replace_leaf a xs)
unfolding replace_leaf
Above-replace_leaf x a [] k = tt
Above-replace_leaf x a (b ∷ xs) k = elim (Bool-cases (str_eq b.key a.key)) [
  | inl same ↦ rw same (rw (← str_eq→eq b.key a.key same) (k.0), k.1)
  | inr other ↦ rw other (k.0, Above-replace_leaf x a xs (k.1))
]

pub Sorted-replace_leaf : (a : Leaf) (xs : List Leaf) → Sorted xs → Sorted (replace_leaf a xs)
unfolding replace_leaf
Sorted-replace_leaf a [] s = tt
Sorted-replace_leaf a (b ∷ xs) s = elim (Bool-cases (str_eq b.key a.key)) [
  | inl same ↦ rw same (rw (← str_eq→eq b.key a.key same) (s.0), s.1)
  | inr other ↦ rw other (Above-replace_leaf b.key a xs (s.0), Sorted-replace_leaf a xs (s.1))
]

-- Behind a replacement, the key finds the new record and every other key what it found before.
pub lookup_leaf-replace_leaf :
    (key : Str) (a : Leaf) (xs : List Leaf) (value : Cid)
    → lookup_leaf a.key xs ≡ some value
    → lookup_leaf key (replace_leaf a xs)
      ≡ (if str_eq a.key key then some a.value else lookup_leaf key xs)
unfolding replace_leaf lookup_leaf
lookup_leaf-replace_leaf key a [] value h = absurd (cc h)
lookup_leaf-replace_leaf key a (b ∷ xs) value h = elim (Bool-cases (str_eq b.key a.key)) [
  | inl same ↦ rw same (rw (str_eq→eq b.key a.key same) (ground arith))
  | inr other ↦
      let rest : lookup_leaf a.key xs ≡ some value = ground (arith, h, other) in
      rw other (
        rw (lookup_leaf-replace_leaf key a xs value rest) (elim (Bool-cases (str_eq a.key key)) [
          | inl same ↦ rw (← str_eq→eq a.key key same) (rw (other, str_eq_refl a.key) refl)
          | inr different ↦ rw different refl
        ]))
]

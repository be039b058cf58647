-- ===== src/Repo/Mst/Items.antt =====
-- The abstract view of a tree: its records in order, and what a sorted list of records does.
use manapds.Prelude.{
  All, List, Option, Str, [], ap, arith, if◌then◌else◌, none, refl, some, sym, true, ◌++◌, ◌∷◌, ◌≡◌,
}
use manapds.Prelude.Bytes.{str_eq, str_lt}
use manapds.Prelude.Order.{str_eq-lt, str_eq-gt, str_lt_asym}
use mathlib.Core.List.{append_assoc}
use manapds.Repo.{Cid}
use manapds.Repo.Mst.{
  Leaf, Mst, mst, unread, loaded, Entries, nil, cons, Entry, leaf, tree, to_list, from_list,
}
use manapds.Repo.Mst.Node.{held}

unfoldable mutual
  pub items : Mst → List Leaf
  items (mst unread _ _) = []
  items (mst (loaded es) _ _) = items_in es

  pub items_in : Entries → List Leaf
  items_in nil = []
  items_in (cons (leaf a) es) = a ∷ items_in es
  items_in (cons (tree m) es) = items m ++ items_in es

-- The records of a list of entries.
unfoldable pub flat : List Entry → List Leaf
flat [] = []
flat (leaf a ∷ es) = a ∷ flat es
flat (tree m ∷ es) = items m ++ flat es

pub to_list-from_list : (es : List Entry) → to_list (from_list es) ≡ es
to_list-from_list [] = refl
to_list-from_list (e ∷ es) = ap (◌∷◌ e) (to_list-from_list es)

pub from_list-to_list : (es : Entries) → from_list (to_list es) ≡ es
from_list-to_list nil = refl
from_list-to_list (cons e es) = ap (cons e) (from_list-to_list es)

pub items_in-flat : (es : Entries) → items_in es ≡ flat (to_list es)
unfolding items flat
items_in-flat nil = refl
items_in-flat (cons (leaf a) es) = ap (◌∷◌ a) (items_in-flat es)
items_in-flat (cons (tree m) es) = ap (◌++◌ (items m)) (items_in-flat es)

pub items-held : (m : Mst) → items m ≡ flat (held m)
unfolding items flat
items-held (mst unread _ _) = refl
items-held (mst (loaded es) _ _) = items_in-flat es

pub flat-append : (es fs : List Entry) → flat (es ++ fs) ≡ flat es ++ flat fs
unfolding flat
flat-append [] fs = refl
flat-append (leaf a ∷ es) fs = ap (◌∷◌ a) (flat-append es fs)
flat-append (tree m ∷ es) fs =
    rw (flat-append es fs) (sym (append_assoc (items m) (flat es) (flat fs)))

-- Every record's key is below, or above, a key.
abbrev pub Below : Str → List Leaf → Type 0
Below key = All (λ a. str_lt a.key key ≡ true)

abbrev pub Above : Str → List Leaf → Type 0
Above key = All (λ a. str_lt key a.key ≡ true)

abbrev pub Sorted : List Leaf → Type 0
Sorted [] = Unit
Sorted (a ∷ xs) = Above a.key xs × Sorted xs

-- What the operations mean on the records alone.
unfoldable pub lookup_leaf : Str → List Leaf → Option Cid
lookup_leaf key [] = none
lookup_leaf key (a ∷ xs) = if str_eq a.key key then some a.value else lookup_leaf key xs

unfoldable pub insert_leaf : Leaf → List Leaf → List Leaf
insert_leaf a [] = a ∷ []
insert_leaf a (b ∷ xs) = if str_lt a.key b.key then a ∷ b ∷ xs else b ∷ insert_leaf a xs

unfoldable pub replace_leaf : Leaf → List Leaf → List Leaf
replace_leaf a [] = []
replace_leaf a (b ∷ xs) = if str_eq b.key a.key then a ∷ xs else b ∷ replace_leaf a xs

unfoldable pub remove_leaf : Str → List Leaf → List Leaf
remove_leaf key [] = []
remove_leaf key (b ∷ xs) = if str_eq b.key key then xs else b ∷ remove_leaf key xs

module _ (key : Str) where
  pub lookup_leaf-Below :
      (xs ys : List Leaf) → Below key xs → lookup_leaf key (xs ++ ys) ≡ lookup_leaf key ys
  unfolding lookup_leaf
  lookup_leaf-Below [] ys h = refl
  lookup_leaf-Below (a ∷ xs) ys h = rw (str_eq-lt a.key key h.0) (lookup_leaf-Below xs ys h.1)

  pub lookup_leaf-Above :
      (xs ys : List Leaf) → Above key ys → lookup_leaf key (xs ++ ys) ≡ lookup_leaf key xs
  unfolding lookup_leaf
  lookup_leaf-Above [] [] h = refl
  lookup_leaf-Above [] (b ∷ ys) h = rw (str_eq-gt b.key key h.0) (lookup_leaf-Above [] ys h.1)
  lookup_leaf-Above (a ∷ xs) ys h = ground (arith, lookup_leaf-Above xs ys h)

  pub remove_leaf-Below :
      (xs ys : List Leaf) → Below key xs → remove_leaf key (xs ++ ys) ≡ xs ++ remove_leaf key ys
  unfolding remove_leaf
  remove_leaf-Below [] ys h = refl
  remove_leaf-Below (a ∷ xs) ys h =
      rw (str_eq-lt a.key key h.0) (ap (◌∷◌ a) (remove_leaf-Below xs ys h.1))

  pub remove_leaf-Above :
      (xs ys : List Leaf) → Above key ys → remove_leaf key (xs ++ ys) ≡ remove_leaf key xs ++ ys
  unfolding remove_leaf
  remove_leaf-Above [] [] h = refl
  remove_leaf-Above [] (b ∷ ys) h =
      rw (str_eq-gt b.key key h.0) (ap (◌∷◌ b) (remove_leaf-Above [] ys h.1))
  remove_leaf-Above (a ∷ xs) ys h = ground (arith, remove_leaf-Above xs ys h)

module _ (a : Leaf) where
  pub insert_leaf-Below :
      (xs ys : List Leaf) → Below a.key xs → insert_leaf a (xs ++ ys) ≡ xs ++ insert_leaf a ys
  unfolding insert_leaf
  insert_leaf-Below [] ys h = refl
  insert_leaf-Below (b ∷ xs) ys h =
      rw (str_lt_asym b.key a.key h.0) (ap (◌∷◌ b) (insert_leaf-Below xs ys h.1))

  pub insert_leaf-Above :
      (xs ys : List Leaf) → Above a.key ys → insert_leaf a (xs ++ ys) ≡ insert_leaf a xs ++ ys
  unfolding insert_leaf
  insert_leaf-Above [] [] h = refl
  insert_leaf-Above [] (b ∷ ys) h = rw h.0
  insert_leaf-Above (b ∷ xs) ys h = ground (arith, insert_leaf-Above xs ys h)

  pub replace_leaf-Below :
      (xs ys : List Leaf) → Below a.key xs → replace_leaf a (xs ++ ys) ≡ xs ++ replace_leaf a ys
  unfolding replace_leaf
  replace_leaf-Below [] ys h = refl
  replace_leaf-Below (b ∷ xs) ys h =
      rw (str_eq-lt b.key a.key h.0) (ap (◌∷◌ b) (replace_leaf-Below xs ys h.1))

  pub replace_leaf-Above :
      (xs ys : List Leaf) → Above a.key ys → replace_leaf a (xs ++ ys) ≡ replace_leaf a xs ++ ys
  unfolding replace_leaf
  replace_leaf-Above [] [] h = refl
  replace_leaf-Above [] (b ∷ ys) h =
      rw (str_eq-gt b.key a.key h.0) (ap (◌∷◌ b) (replace_leaf-Above [] ys h.1))
  replace_leaf-Above (b ∷ xs) ys h = ground (arith, replace_leaf-Above xs ys h)

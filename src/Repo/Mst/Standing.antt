-- ===== src/Repo/Mst/Standing.antt =====
-- Where a walk stands in a node of records: on one of them, or past the last.
use manapds.Prelude.{
  List, [], ap, arith, drop, false, get_elem?, length, ltb, map, refl, some, suc, true, zero, ℕ,
  ◌+◌, ◌∷◌, ◌≡◌,
}
use manapds.Prelude.Result.{ok}
use manapds.Repo.Mst.{Leaf, Entry, Reader, leaf}
use manapds.Repo.Mst.Walk.{
  Walker, at_leaf, node, done, at, cid, cid_at, key, entry_in, step_over, pop_levels, advance,
}

-- The entries that stand from a place on are some records.
pub record IsOn (es : List Entry) (i : ℕ) (ls : List Leaf) : Type 0 where
  pub rest : drop i es ≡ map leaf ls

abbrev pub on : List Entry → ℕ → ℕ → Walker
on es n i = record {
  seen = [];
  stack = record { entries = es; index = i; height = n } ∷ [];
  cursor = node;
  above = n + 1;
}

abbrev pub over : ℕ → Walker
over n = record { seen = []; stack = []; cursor = done; above = n + 1 }

abbrev pub standing : List Entry → ℕ → ℕ → List Leaf → Walker
standing es n i [] = over n
standing es n i (a ∷ ls) = on es n i

drop-cons {ℓ} :
    {A : Type ℓ} (i : ℕ) (es : List A) (e : A) (rest : List A)
    → drop i es ≡ e ∷ rest
    → (get_elem? es i ≡ some e) × (drop (suc i) es ≡ rest)
drop-cons zero [] e rest h = absurd (cc h)
drop-cons zero (x ∷ es) e rest h = (cc h, cc h)
drop-cons (suc i) [] e rest h = absurd (cc h)
drop-cons (suc i) (x ∷ es) e rest h = drop-cons i es e rest h

drop-none {ℓ} : {A : Type ℓ} (i : ℕ) (es : List A) → drop i es ≡ [] → ltb i (length es) ≡ false
drop-none zero [] h = refl
drop-none zero (x ∷ es) h = absurd (cc h)
drop-none (suc i) [] h = ground arith
drop-none (suc i) (x ∷ es) h = ground (arith, drop-none i es h)

drop-some {ℓ} :
    {A : Type ℓ} (i : ℕ) (es : List A) (e : A) (rest : List A)
    → drop i es ≡ e ∷ rest
    → ltb i (length es) ≡ true
drop-some zero [] e rest h = absurd (cc h)
drop-some zero (x ∷ es) e rest h = ground arith
drop-some (suc i) [] e rest h = absurd (cc h)
drop-some (suc i) (x ∷ es) e rest h = ground (arith, drop-some i es e rest h)

pub here :
    (es : List Entry) (i : ℕ) (a : Leaf) (ls : List Leaf)
    → IsOn es i (a ∷ ls)
    → get_elem? es i ≡ some (leaf a)
here es i a ls h = (drop-cons i es (leaf a) (map leaf ls) h.rest).0

pub next :
    (es : List Entry) (i : ℕ) (a : Leaf) (ls : List Leaf) → IsOn es i (a ∷ ls) → IsOn es (suc i) ls
next es i a ls h = record { rest = (drop-cons i es (leaf a) (map leaf ls) h.rest).1 }

step_over-standing :
    (es : List Entry) (n i : ℕ) (ls : List Leaf)
    → IsOn es (suc i) ls
    → step_over (on es n i) ≡ standing es n (suc i) ls
unfolding step_over pop_levels
step_over-standing es n i [] h = rw (drop-none (suc i) es h.rest) refl
step_over-standing es n i (a ∷ ls) h = rw (drop-some (suc i) es (leaf a) (map leaf ls) h.rest) refl

-- What is read of a walk that stands on a record, and where it goes.
pub at-on :
    (es : List Entry) (n i : ℕ) (a : Leaf) (ls : List Leaf)
    → IsOn es i (a ∷ ls)
    → at (on es n i) ≡ some at_leaf
unfolding at entry_in
at-on es n i a ls h = rw (here es i a ls h) refl

pub key-on :
    (es : List Entry) (n i : ℕ) (a : Leaf) (ls : List Leaf)
    → IsOn es i (a ∷ ls)
    → key (on es n i) ≡ some a.key
unfolding key entry_in
key-on es n i a ls h = rw (here es i a ls h) refl

pub cid-on :
    (r : Reader) (es : List Entry) (n i : ℕ) (a : Leaf) (ls : List Leaf)
    → IsOn es i (a ∷ ls)
    → cid r (on es n i) ≡ ok (on es n i, a.value)
unfolding cid cid_at
cid-on r es n i a ls h = rw (cid_at, here es i a ls h) refl

pub advance-on :
    (r : Reader) (es : List Entry) (n i : ℕ) (a : Leaf) (ls : List Leaf)
    → IsOn es i (a ∷ ls)
    → advance r (on es n i) ≡ ok (standing es n (suc i) ls)
unfolding advance
advance-on r es n i a ls h =
    rw (advance, at-on es n i a ls h) (ap ok (step_over-standing es n i ls (next es i a ls h)))

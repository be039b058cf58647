-- ===== src/Prelude/Search/Found.antt =====
-- The search of an ascending list finds what is in it.
use mathlib.Core.Path.{subst}
use manapds.Prelude.{
  All, Bool-cases, List, Str, [], all, ap, arith, drop, false, get_elem?, inl, inr, length, ltb,
  ltb→lt, refl, some, suc, sym, take, true, zero, ℕ, ◌+◌, ◌-◌, ◌/◌, ◌<◌, ◌||◌, ◌∙◌, ◌∷◌, ◌≡◌, ◌≤◌,
}
use manapds.Prelude.Bytes.{str_eq, str_lt}
use manapds.Prelude.Eq.{str_eq→eq}
use manapds.Prelude.Order.{str_lt_trans, str_eq-gt}
use manapds.Prelude.Search.{mem, Ascending, is_after, is_at, search, binary_search}

mem-above :
    (key : Str) (names : List Str) (n : ℕ)
    → All (λ name. str_lt key name ≡ true) names
    → mem key (take n names) ≡ false
mem-above key names zero above = refl
mem-above key [] (suc n) above = refl
mem-above key (name ∷ names) (suc n) above =
    rw (str_eq-gt name key above.0) (mem-above key names n above.1)

pub All-lt :
    (key name : Str) (names : List Str)
    → str_lt key name ≡ true
    → All (λ later. str_lt name later ≡ true) names
    → All (λ later. str_lt key later ≡ true) names
All-lt key name [] below above = tt
All-lt key name (x ∷ names) below above =
    (str_lt_trans key name x below above.0, All-lt key name names below above.1)

-- What stands from a name above the key on does not hold the key.
mem-take_below :
    (key name : Str) (names : List Str) (i j : ℕ)
    → Ascending names
    → get_elem? names i ≡ some name
    → str_lt key name ≡ true
    → i ≤ j
    → mem key (take j names) ≡ mem key (take i names)
mem-take_below key name [] i j sorted at below within = absurd (cc at)
mem-take_below key name (x ∷ names) zero j sorted at below within =
    let first : x ≡ name = cc at in
    let above : str_lt key x ≡ true = rw first below in
    mem-above key (x ∷ names) j (above, All-lt key x names above sorted.0)
mem-take_below key name (x ∷ names) (suc i) zero sorted at below within = absurd (omega arith)
mem-take_below key name (x ∷ names) (suc i) (suc j) sorted at below within =
    ap (λ found. str_eq x key || found)
      (mem-take_below key name names i j sorted.1 at below (omega arith))

All-get {ℓ} :
    (P : Str → Type ℓ) (names : List Str) (i : ℕ) (name : Str)
    → All P names
    → get_elem? names i ≡ some name
    → P name
All-get P [] i name all at = absurd (cc at)
All-get P (x ∷ names) zero name all at = let first : x ≡ name = cc at in subst P first all.0
All-get P (x ∷ names) (suc i) name all at = All-get P names i name all.1 at

-- What stands in front of a name not above the key does not hold the key.
mem-drop_above :
    (key name : Str) (names : List Str) (i j : ℕ)
    → Ascending names
    → get_elem? names i ≡ some name
    → str_lt key name ≡ false
    → i ≤ j
    → mem key (take j names) ≡ mem key (take (j - i) (drop i names))
mem-drop_above key name names zero j sorted at reaches within =
    let whole : j - 0 ≡ j = omega arith in rw whole refl
mem-drop_above key name [] (suc i) j sorted at reaches within = absurd (cc at)
mem-drop_above key name (x ∷ names) (suc i) zero sorted at reaches within = absurd (omega arith)
mem-drop_above key name (x ∷ names) (suc i) (suc j) sorted at reaches within =
    let later : str_lt x name ≡ true =
      All-get (λ later. str_lt x later ≡ true) names i name sorted.0 at in
    elim (Bool-cases (str_eq x key)) [
      | inl same ↦
          let behind : str_lt key name ≡ true = rw (← str_eq→eq x key same) later in absurd (cc)
      | inr other ↦
          let less : suc j - suc i ≡ j - i = omega arith in
          rw (other, less) (mem-drop_above key name names i j sorted.1 at reaches (omega arith))
    ]

Ascending-drop : (names : List Str) (i : ℕ) → Ascending names → Ascending (drop i names)
Ascending-drop names zero sorted = sorted
Ascending-drop [] (suc i) sorted = tt
Ascending-drop (x ∷ names) (suc i) sorted = Ascending-drop names i sorted.1

length-drop {ℓ} : {A : Type ℓ} (xs : List A) (i : ℕ) → length (drop i xs) ≡ length xs - i
length-drop xs zero = omega arith
length-drop [] (suc i) = omega arith
length-drop (x ∷ xs) (suc i) = omega (arith, length-drop xs i)

get_elem?-within {ℓ} :
    {A : Type ℓ} (xs : List A) (i : ℕ) → i < length xs → (x : A) × (get_elem? xs i ≡ some x)
get_elem?-within [] i h = absurd (omega arith)
get_elem?-within (x ∷ xs) zero h = (x, refl)
get_elem?-within (x ∷ xs) (suc i) h = get_elem?-within xs i (omega arith)

mem-one :
    (key : Str) (names : List Str)
    → 0 < length names
    → is_at key (get_elem? names 0) ≡ mem key (take 1 names)
unfolding is_at
mem-one key [] h = absurd (omega arith)
mem-one key (x ∷ names) h = ground arith

search-mem :
    (rounds size : ℕ) (names : List Str) (key : Str)
    → Ascending names
    → 0 < size
    → size ≤ length names
    → size ≤ rounds + 1
    → search rounds size names key ≡ mem key (take size names)
unfolding search is_after
search-mem zero size names key sorted some_left within enough =
    let e : size ≡ 1 = omega arith in rw e (mem-one key names (omega arith))
search-mem (suc rounds) size names key sorted some_left within enough =
    elim (Bool-cases (ltb 1 size)) [
      | inr last ↦ let e : size ≡ 1 = ground arith in rw (last, e) (mem-one key names (omega arith))
      | inl more ↦
          let many : 1 < size = ltb→lt 1 size more in
          let (name, at) = get_elem?-within names (size / 2) (omega arith) in
          elim (Bool-cases (str_lt key name)) [
            | inl above ↦
                rw (more, at, above)
                  (search-mem rounds (size - size / 2) names key sorted (omega arith) (omega arith)
                      (omega arith)
                    ∙ mem-take_below key name names (size / 2) (size - size / 2) sorted at above
                        (omega arith)
                    ∙ sym (
                        mem-take_below key name names (size / 2) size sorted at above
                          (omega arith)))
            | inr reaches ↦
                rw (more, at, reaches)
                  (search-mem rounds (size - size / 2) (drop (size / 2) names) key
                      (Ascending-drop names (size / 2) sorted) (omega arith)
                      (omega (arith, length-drop {0} names (size / 2))) (omega arith)
                    ∙ sym (
                        mem-drop_above key name names (size / 2) size sorted at reaches
                          (omega arith)))
          ]
    ]

take-all {ℓ} : {A : Type ℓ} (xs : List A) → take (length xs) xs ≡ xs
take-all [] = refl
take-all (x ∷ xs) = ap (◌∷◌ x) (take-all xs)

pub binary_search-mem :
    (names : List Str) (key : Str) → Ascending names → binary_search names key ≡ mem key names
unfolding binary_search
binary_search-mem [] key sorted = refl
binary_search-mem (x ∷ names) key sorted =
    search-mem (length (x ∷ names)) (length (x ∷ names)) (x ∷ names) key sorted (omega arith)
      (omega arith) (omega arith)
    ∙ ap (mem key) (take-all (x ∷ names))

-- ===== src/Prelude/Search/Sorted.antt =====
-- Sorting and `dedup` make an ascending list of the same texts.
use manapds.Prelude.{
  All, Bool, Bool-cases, List, Str, [], all, ap, false, inl, inr, refl, true, ◌||◌, ◌∙◌, ◌∷◌, ◌≡◌,
}
use manapds.Prelude.Bytes.{str_eq, str_lt}
use manapds.Prelude.Eq.{str_eq_refl, str_eq→eq}
use manapds.Prelude.Order.{str_lt_trans, str_lt_total, str_lt_asym}
use manapds.Prelude.Search.{mem, Ascending, insert_sorted, sort, dedup, dedup_behind}
use manapds.Prelude.Search.Found.{All-lt}

or_swap : (a b c : Bool) → (a || (b || c)) ≡ (b || (a || c))
or_swap true true c = refl
or_swap true false c = refl
or_swap false true c = refl
or_swap false false c = refl

or_again : (a c : Bool) → (a || c) ≡ (a || (a || c))
or_again true c = refl
or_again false c = refl

not_eq : (x y : Str) → str_eq x y ≡ false → str_eq y x ≡ false
not_eq x y h = elim (Bool-cases (str_eq y x)) [
  | inl same ↦
      let again : str_eq x y ≡ true = rw (str_eq→eq y x same) (str_eq_refl x) in absurd (cc)
  | inr other ↦ other
]

abbrev Rising : List Str → Type 0
Rising [] = Unit
Rising (name ∷ names) = All (λ later. str_lt later name ≡ false) names × Rising names

mem-insert_sorted :
    (key x : Str) (names : List Str)
    → mem key (insert_sorted x names) ≡ (str_eq x key || mem key names)
unfolding insert_sorted
mem-insert_sorted key x [] = refl
mem-insert_sorted key x (y ∷ names) = elim (Bool-cases (str_lt y x)) [
  | inl before ↦
      rw (before, mem-insert_sorted key x names)
        (or_swap (str_eq y key) (str_eq x key) (mem key names))
  | inr behind ↦ rw behind refl
]

pub mem-sort : (key : Str) (names : List Str) → mem key (sort names) ≡ mem key names
unfolding sort
mem-sort key [] = refl
mem-sort key (x ∷ names) =
    mem-insert_sorted key x (sort names) ∙ ap (λ found. str_eq x key || found) (mem-sort key names)

All-insert_sorted {ℓ} :
    (P : Str → Type ℓ) (x : Str) (names : List Str)
    → P x
    → All P names
    → All P (insert_sorted x names)
unfolding insert_sorted
All-insert_sorted P x [] first rest = (first, tt)
All-insert_sorted P x (y ∷ names) first rest = elim (Bool-cases (str_lt y x)) [
  | inl before ↦ rw before (rest.0, All-insert_sorted P x names first rest.1)
  | inr behind ↦ rw behind (first, rest)
]

not_after : (x y z : Str) → str_lt y x ≡ false → str_lt z y ≡ false → str_lt z x ≡ false
not_after x y z h k = elim (Bool-cases (str_lt z x)) [
  | inr fine ↦ fine
  | inl before ↦ elim (Bool-cases (str_eq z y)) [
    | inl same ↦ let again : str_lt y x ≡ true = rw (← str_eq→eq z y same) before in absurd (cc)
    | inr other ↦
        let again : str_lt y x ≡ true = str_lt_trans y z x (str_lt_total z y k other) before in
        absurd (cc)
  ]
]

All-not_after :
    (x y : Str) (names : List Str)
    → str_lt y x ≡ false
    → All (λ later. str_lt later y ≡ false) names
    → All (λ later. str_lt later x ≡ false) names
All-not_after x y [] h all = tt
All-not_after x y (z ∷ names) h all = (not_after x y z h all.0, All-not_after x y names h all.1)

insert_sorted-Rising : (x : Str) (names : List Str) → Rising names → Rising (insert_sorted x names)
unfolding insert_sorted
insert_sorted-Rising x [] rising = (tt, tt)
insert_sorted-Rising x (y ∷ names) rising = elim (Bool-cases (str_lt y x)) [
  | inl before ↦ rw before (
    All-insert_sorted (λ later. str_lt later y ≡ false) x names (str_lt_asym y x before) rising.0,
    insert_sorted-Rising x names rising.1,
  )
  | inr behind ↦ rw behind ((behind, All-not_after x y names behind rising.0), rising)
]

sort-Rising : (names : List Str) → Rising (sort names)
unfolding sort
sort-Rising [] = tt
sort-Rising (x ∷ names) = insert_sorted-Rising x (sort names) (sort-Rising names)

-- `dedup`
mem-dedup_behind :
    (key x : Str) (names : List Str)
    → (str_eq x key || mem key (dedup_behind x names)) ≡ (str_eq x key || mem key names)
unfolding dedup_behind
mem-dedup_behind key x [] = refl
mem-dedup_behind key x (y ∷ names) = elim (Bool-cases (str_eq x y)) [
  | inl same ↦
      rw (same, mem-dedup_behind key x names, ← str_eq→eq x y same)
        (or_again (str_eq x key) (mem key names))
  | inr other ↦ rw other (ap (λ found. str_eq x key || found) (mem-dedup_behind key y names))
]

pub mem-dedup : (key : Str) (names : List Str) → mem key (dedup names) ≡ mem key names
unfolding dedup
mem-dedup key [] = refl
mem-dedup key (x ∷ names) = mem-dedup_behind key x names

All-after :
    (x : Str) (names : List Str)
    → Rising (x ∷ names)
    → All (λ later. str_lt x later ≡ true) (dedup_behind x names)
unfolding dedup_behind
All-after x [] rising = tt
All-after x (y ∷ names) rising = elim (Bool-cases (str_eq x y)) [
  | inl same ↦ rw same (All-after x names (rising.0.1, rising.1.1))
  | inr other ↦
      let before : str_lt x y ≡ true = str_lt_total y x rising.0.0 (not_eq x y other) in
      rw other (before, All-lt x y (dedup_behind y names) before (All-after y names rising.1))
]

dedup_behind-Ascending :
    (x : Str) (names : List Str) → Rising (x ∷ names) → Ascending (dedup_behind x names)
unfolding dedup_behind
dedup_behind-Ascending x [] rising = tt
dedup_behind-Ascending x (y ∷ names) rising = elim (Bool-cases (str_eq x y)) [
  | inl same ↦ rw same (dedup_behind-Ascending x names (rising.0.1, rising.1.1))
  | inr other ↦ rw other (All-after y names rising.1, dedup_behind-Ascending y names rising.1)
]

dedup-Ascending : (names : List Str) → Rising names → Ascending (dedup names)
unfolding dedup
dedup-Ascending [] rising = tt
dedup-Ascending (x ∷ names) rising =
    (All-after x names rising, dedup_behind-Ascending x names rising)

pub dedup-sort-Ascending : (names : List Str) → Ascending (dedup (sort names))
dedup-sort-Ascending names = dedup-Ascending (sort names) (sort-Rising names)

-- ===== src/Prelude/Split.antt =====
-- What taking a text apart says of the text.
use Prim.Native.Nat.{ℕ}
use mathlib.Core.Path.{◌≡◌, refl, ap, ◌∙◌}
use mathlib.Core.Bool.{true, false}
use mathlib.Core.Option.{Option, some}
use mathlib.Core.List.{List, [], ◌∷◌, ◌++◌}
use mathlib.Core.Logic.{inl, inr}
use native.Mathlib.Omega.{arith}
use manapds.Prelude.Tests.{Option-cases, ◌==◌, ==_iff, Bool-cases}
use manapds.Prelude.Lists.{All}
use manapds.Prelude.Bytes.{prepend_to_head, Str, contains, split, split_once, strip_prefix}

pub strip_prefix-some : (p s t : Str) → strip_prefix p s ≡ some t → s ≡ p ++ t
strip_prefix-some [] s t h = cc
strip_prefix-some (x ∷ p) [] t h = cc
strip_prefix-some (x ∷ p) (c ∷ s) t h = elim (Bool-cases (x == c)) [
  | inl same ↦
      let ih = strip_prefix-some p s t (rw same at h) in
      let e = (==_iff x c).0 same in rw (e, ih) refl
  | inr other ↦ absurd (cc (rw other at h))
]

pub split_once-some : (sep : ℕ) (s a b : Str) → split_once sep s ≡ some (a, b) → s ≡ a ++ sep ∷ b
split_once-some sep [] a b h = absurd (cc h)
split_once-some sep (c ∷ s) a b h = elim (Bool-cases (c == sep)) [
  | inl same ↦
      let here : Path (Option (Str × Str)) (some ([], s)) (some (a, b)) = rw same at h in
      let first : [] ≡ a = cc here in
      let rest : s ≡ b = cc here in let e = (==_iff c sep).0 same in rw (← first, ← rest, e) refl
  | inr other ↦ elim (Option-cases (split_once sep s)) [
    | inl none_at ↦ absurd (cc (rw (other, none_at) at h))
    | inr found ↦
        let ((a', b'), at) = found in
        let here : Path (Option (Str × Str)) (some (c ∷ a', b')) (some (a, b)) =
          rw (other, at) at h in
        let first : c ∷ a' ≡ a = cc here in
        let rest : b' ≡ b = cc here in
        rw (← first, ← rest) (ap (◌∷◌ c) (split_once-some sep s a' b' at))
  ]
]

-- The parts with the separator between them.
abbrev pub join : ℕ → List Str → Str
join sep [] = []
join sep (part ∷ []) = part
join sep (part ∷ next ∷ parts) = part ++ sep ∷ join sep (next ∷ parts)

join-prepend :
    (sep c : ℕ) (parts : List Str) → join sep (prepend_to_head c parts) ≡ c ∷ join sep parts
join-prepend sep c [] = refl
join-prepend sep c (p ∷ []) = refl
join-prepend sep c (p ∷ q ∷ parts) = refl

join-apart : (sep : ℕ) (s : Str) → join sep ([] ∷ split sep s) ≡ sep ∷ join sep (split sep s)
join-apart sep [] = refl
join-apart sep (c ∷ s) = elim (Bool-cases (c == sep)) [
  | inl same ↦ rw same refl
  | inr other ↦
      rw other
        (elim (split sep s)
          as (λ ps. join sep ([] ∷ prepend_to_head c ps) ≡ sep ∷ join sep (prepend_to_head c ps)) [
            | [] ↦ refl
            | p ∷ ps ↦ refl
          ])
]

pub join-split : (sep : ℕ) (s : Str) → join sep (split sep s) ≡ s
join-split sep [] = refl
join-split sep (c ∷ s) = elim (Bool-cases (c == sep)) [
  | inl same ↦
      rw same (join-apart sep s ∙ rw ((==_iff c sep).0 same) (ap (◌∷◌ sep) (join-split sep s)))
  | inr other ↦ rw other (join-prepend sep c (split sep s) ∙ ap (◌∷◌ c) (join-split sep s))
]

-- A text without the separator is one part, and one with a single separator in it is two.
pub split-whole : (sep : ℕ) (s : Str) → contains sep s ≡ false → split sep s ≡ s ∷ []
split-whole sep [] h = refl
split-whole sep (c ∷ s) h = ground (arith, split-whole sep s)

pub split-pair :
    (sep : ℕ) (s t : Str)
    → contains sep s ≡ false
    → contains sep t ≡ false
    → split sep (s ++ sep ∷ t) ≡ s ∷ t ∷ []
split-pair sep [] t h k =
    let same : (sep == sep) ≡ true = ground arith in rw (same, split-whole sep t k) refl
split-pair sep (c ∷ s) t h k = ground (arith, split-pair sep s t)

split-part :
    (sep : ℕ) (s t : Str) → contains sep s ≡ false → split sep (s ++ sep ∷ t) ≡ s ∷ split sep t
split-part sep [] t h = let same : (sep == sep) ≡ true = ground arith in rw same refl
split-part sep (c ∷ s) t h = ground (arith, split-part sep s t)

-- Parts without the separator come back from the text that they are joined to.
pub split-join :
    (sep : ℕ) (part : Str) (parts : List Str)
    → All (λ p. contains sep p ≡ false) (part ∷ parts)
    → split sep (join sep (part ∷ parts)) ≡ part ∷ parts
split-join sep part [] h = split-whole sep part h.0
split-join sep part (next ∷ parts) h =
    split-part sep part (join sep (next ∷ parts)) h.0
    ∙ ap (◌∷◌ part) (split-join sep next parts h.1)

-- ===== src/Prelude/Classes.antt =====
-- Texts all of whose bytes are of a class.
use Prim.Native.Nat.{ℕ}
use mathlib.Core.Path.{◌≡◌, refl}
use mathlib.Core.Logic.{inl, inr}
use mathlib.Core.Bool.{Bool, true, false}
use mathlib.Core.List.{List, [], ◌∷◌, ◌++◌}
use manapds.Prelude.Tests.{◌==◌, ==_iff, Bool-cases}
use manapds.Prelude.Lists.{all, All}
use manapds.Prelude.Bytes.{Str, contains}
use manapds.Prelude.Split.{join}

module _ (p : ℕ → Bool) where
  pub all-weaken :
      (q : ℕ → Bool)
      → ((b : ℕ) → p b ≡ true → q b ≡ true)
      → (s : Str) → all p s ≡ true
      → all q s ≡ true
  all-weaken q law [] h = refl
  all-weaken q law (c ∷ s) h = elim (Bool-cases (p c)) [
    | inl here ↦ rw (law c here) (all-weaken q law s (rw here at h))
    | inr other ↦ absurd (cc (rw other at h))
  ]

  pub all-append : (s t : Str) → all p s ≡ true → all p t ≡ true → all p (s ++ t) ≡ true
  all-append [] t h k = k
  all-append (c ∷ s) t h k = elim (Bool-cases (p c)) [
    | inl here ↦ rw here (all-append s t (rw here at h) k)
    | inr other ↦ absurd (cc (rw other at h))
  ]

  pub all-join :
      (sep : ℕ) (parts : List Str)
      → p sep ≡ true
      → All (λ part. all p part ≡ true) parts
      → all p (join sep parts) ≡ true
  all-join sep [] h k = refl
  all-join sep (part ∷ []) h k = k.0
  all-join sep (part ∷ next ∷ parts) h k =
      all-append part (sep ∷ join sep (next ∷ parts)) (k.0)
        (rw h (all-join sep (next ∷ parts) h (k.1)))

  -- A byte outside the class is not in the text.
  pub all-contains : (c : ℕ) (s : Str) → p c ≡ false → all p s ≡ true → contains c s ≡ false
  all-contains c [] h k = refl
  all-contains c (b ∷ s) h k = elim (Bool-cases (p b)) [
    | inr other ↦ absurd (cc (rw other at k))
    | inl here ↦ elim (Bool-cases (b == c)) [
      | inl same ↦ let e = (==_iff b c).0 same in absurd (cc (here, h, e))
      | inr different ↦ rw different (all-contains c s h (rw here at k))
    ]
  ]

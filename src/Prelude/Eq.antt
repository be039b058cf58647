-- ===== src/Prelude/Eq.antt =====
-- Decided equality as an interface, and its instances for numbers and for text.
use Prim.Native.Nat.{ℕ}
use mathlib.Core.Path.{◌≡◌, refl}
use mathlib.Core.Logic.{◌↔◌}
use mathlib.Core.Bool.{Bool, true}
use mathlib.Core.List.{[], ◌∷◌}
use native.Mathlib.Omega.{arith}
use manapds.Prelude.Tests.{◌==◌ as nat_beq, ==_iff}
use manapds.Prelude.Bytes.{Str, str_eq}

pub record Eq {ℓ} (Key : Type ℓ) : Type ℓ where
  pub decides : Key → Key → Bool
  pub decides_iff : (left right : Key) → (decides left right ≡ true) ↔ (left ≡ right)

infix 50 ◌=?◌
abbrev pub ◌=?◌ {ℓ} : {A : Type ℓ} ⦃e : Eq A⦄ → A → A → Bool
◌=?◌ ⦃e⦄ = e.decides

pub str_eq_refl : (s : Str) → str_eq s s ≡ true
str_eq_refl [] = refl
str_eq_refl (x ∷ s) = ground (arith, str_eq_refl s)

pub str_eq→eq : (s t : Str) → str_eq s t ≡ true → s ≡ t
str_eq→eq [] [] h = refl
str_eq→eq [] (y ∷ t) h = cc
str_eq→eq (x ∷ s) [] h = cc
str_eq→eq (x ∷ s) (y ∷ t) h = ground (arith, str_eq→eq s t)

pub str_eq_iff : (s t : Str) → (str_eq s t ≡ true) ↔ (s ≡ t)
str_eq_iff s t = (str_eq→eq s t, λ e. rw e (str_eq_refl t))

instance abbrev pub ℕ_eq : Eq ℕ
ℕ_eq = record { decides = nat_beq; decides_iff = ==_iff }

instance abbrev pub Str_eq : Eq Str
Str_eq = record { decides = str_eq; decides_iff = str_eq_iff }

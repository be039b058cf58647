-- ===== src/Prelude/Order.antt =====
-- The order of texts by bytes is a strict total order.
use mathlib.Core.Path.{◌≡◌, refl}
use mathlib.Core.Bool.{true, false}
use mathlib.Core.List.{[], ◌∷◌}
use native.Mathlib.Omega.{arith}
use manapds.Prelude.Bytes.{Str, str_eq, str_lt}

pub str_lt_irrefl : (s : Str) → str_lt s s ≡ false
str_lt_irrefl [] = refl
str_lt_irrefl (x ∷ s) = ground (arith, str_lt_irrefl s)

pub str_lt_trans : (a b c : Str) → str_lt a b ≡ true → str_lt b c ≡ true → str_lt a c ≡ true
str_lt_trans [] [] c h k = cc
str_lt_trans [] (y ∷ b) [] h k = cc
str_lt_trans [] (y ∷ b) (z ∷ c) h k = refl
str_lt_trans (x ∷ a) [] c h k = cc
str_lt_trans (x ∷ a) (y ∷ b) [] h k = cc
str_lt_trans (x ∷ a) (y ∷ b) (z ∷ c) h k = ground (arith, str_lt_trans a b c)

pub str_lt_total : (a b : Str) → str_lt a b ≡ false → str_eq a b ≡ false → str_lt b a ≡ true
str_lt_total [] [] h k = cc
str_lt_total [] (y ∷ b) h k = cc
str_lt_total (x ∷ a) [] h k = refl
str_lt_total (x ∷ a) (y ∷ b) h k = ground (arith, str_lt_total a b)

pub str_eq-lt : (a b : Str) → str_lt a b ≡ true → str_eq a b ≡ false
str_eq-lt [] [] h = cc
str_eq-lt [] (y ∷ b) h = refl
str_eq-lt (x ∷ a) [] h = refl
str_eq-lt (x ∷ a) (y ∷ b) h = ground (arith, str_eq-lt a b)

pub str_eq-gt : (a b : Str) → str_lt b a ≡ true → str_eq a b ≡ false
str_eq-gt [] [] h = cc
str_eq-gt [] (y ∷ b) h = refl
str_eq-gt (x ∷ a) [] h = refl
str_eq-gt (x ∷ a) (y ∷ b) h = ground (arith, str_eq-gt a b)

pub str_lt_asym : (a b : Str) → str_lt a b ≡ true → str_lt b a ≡ false
str_lt_asym [] [] h = refl
str_lt_asym [] (y ∷ b) h = refl
str_lt_asym (x ∷ a) [] h = cc
str_lt_asym (x ∷ a) (y ∷ b) h = ground (arith, str_lt_asym a b)

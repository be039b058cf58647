-- ===== src/Prelude/Result.antt =====
-- Rust's `Result`, with `?` as the bind of a `do` block.
use mathlib.Core.Path.{◌≡◌, refl}
use mathlib.Core.Logic.{◌⊎◌, inl, inr}
use mathlib.Core.Bool.{Bool, true, false}
use mathlib.Core.Option.{Option, none, some}

pub data Result {ℓ} (E : Type 0) (A : Type ℓ) : Type ℓ where
  ok : A → Result E A
  err : E → Result E A

infixl 5 ◌>>=◌ ◌>>◌
abbrev pub ◌>>=◌ {ℓ κ} :
    {E : Type 0} {A : Type ℓ} {B : Type κ} → Result E A → (A → Result E B) → Result E B
ok a >>= f = f a
err e >>= f = err e

abbrev pub ◌>>◌ {ℓ} : {E : Type 0} {B : Type ℓ} → Result E (Unit {0}) → Result E B → Result E B
m >> k = m >>= λ _. k

-- `if b { return Err(e) }`
abbrev pub fail_if : {E : Type 0} → Bool → E → Result E (Unit {0})
fail_if true e = err e
fail_if false e = ok tt

-- `Option::ok_or`
abbrev pub ok_or {ℓ} : {E : Type 0} {A : Type ℓ} → Option A → E → Result E A
ok_or none fault = err fault
ok_or (some a) fault = ok a

pub ok-ok {ℓ} : {E : Type 0} {A : Type ℓ} (a b : A) → Path (Result E A) (ok a) (ok b) → a ≡ b
ok-ok a b h = cc h

pub ok_or-ok {ℓ} :
    {E : Type 0} {A : Type ℓ} (found : Option A) (fault : E) (a : A)
    → ok_or found fault ≡ ok a
    → found ≡ some a
ok_or-ok none fault a h = absurd (cc h)
ok_or-ok {E} (some d) fault a h = rw (ok-ok {E = E} d a h) refl

pub fail_if-ok :
    {E : Type 0} (b : Bool) (fault : E) (u : Unit {0}) → fail_if b fault ≡ ok u → b ≡ false
fail_if-ok true fault u h = absurd (cc h)
fail_if-ok false fault u h = refl

-- A bind that came to a value had one in its first step.
pub bind-ok {ℓ κ} :
    {Fault : Type 0} {Inner : Type ℓ} {Outer : Type κ} (step : Result Fault Inner)
    (next : Inner → Result Fault Outer) {outer : Outer}
    → (step >>= next) ≡ ok outer
    → (inner : Inner) × (step ≡ ok inner) × (next inner ≡ ok outer)
bind-ok (err fault) next came = absurd (cc came)
bind-ok (ok inner) next came = (inner, refl, came)

pub Result-cases {ℓ} :
    {E : Type 0} {A : Type ℓ} (m : Result E A) → ((a : A) × (m ≡ ok a)) ⊎ ((e : E) × (m ≡ err e))
Result-cases (ok a) = inl (a, refl)
Result-cases (err e) = inr (e, refl)

-- ===== src/Plc/Left.antt =====
-- What one exchange with the directory leaves, and what it tells.
use manapds.Prelude.{Bool, Bool-cases, Option, Str, false, inl, inr, refl, true, ℕ, ◌≡◌}
use manapds.Prelude.Result.{Result, err, ok}
use manapds.Syntax.Did
use manapds.Plc.{Error, encode, signature, malformed, unreachable, uncertain, refused}
use manapds.Plc.Client.{
  Net, Client, Reply, Held, no_answer, no_connection, broken, answered, yes, no, unknown,
  is_success, is_server_error, is_uncertain, address, exchanged, attempt_to, attempt, document,
  asked, holds,
}

-- What the directory does, and HTTP says of it. `held` is whether it holds the operation at the address.
pub record IsHonest {S : Type 0} (net : Net S) (held : S → Bool) (client : Client) (did : Did.Did)
    : Type 0 where
  -- A success is an answer from a directory that took the operation.
  pub post-success :
      (budget : ℕ) (target body : Str) (s : S) (status : ℕ) (said : Option Str)
      → net.request_to (address client did) ≡ ok target
      → (net.post budget target body s).1 ≡ answered status said
      → is_success status ≡ true
      → held (net.post budget target body s).0 ≡ true
  -- Any other answer but a failure of the server is a decision to leave things as they were.
  pub post-refused :
      (budget : ℕ) (target body : Str) (s : S) (status : ℕ) (said : Option Str)
      → net.request_to (address client did) ≡ ok target
      → (net.post budget target body s).1 ≡ answered status said
      → is_success status ≡ false
      → is_server_error status ≡ false
      → held (net.post budget target body s).0 ≡ held s
  -- A connection that was never made carried nothing.
  pub post-unsent :
      (budget : ℕ) (target body said : Str) (s : S)
      → net.request_to (address client did) ≡ ok target
      → (net.post budget target body s).1 ≡ no_connection said
      → held (net.post budget target body s).0 ≡ held s
  -- Being asked changes nothing, and the answers are true.
  pub get-held :
      (budget : ℕ) (target : Str) (s : S)
      → net.request_to (address client did) ≡ ok target
      → held (net.get budget target s).0 ≡ held s
  pub get-yes :
      (budget : ℕ) (target : Str) (s : S)
      → net.request_to (address client did) ≡ ok target
      → document net did (net.get budget target s).1 ≡ yes
      → held s ≡ true
  pub get-no :
      (budget : ℕ) (target : Str) (s : S)
      → net.request_to (address client did) ≡ ok target
      → document net did (net.get budget target s).1 ≡ no
      → held s ≡ false

-- What an attempt leaves: an operation that is held, no change, or no telling.
abbrev pub IsLeft : Bool → Bool → Result Error (Unit {0}) → Type 0
IsLeft before after (ok _) = after ≡ true
IsLeft before after (err (uncertain _)) = Unit
IsLeft before after (err (encode _)) = after ≡ before
IsLeft before after (err signature) = after ≡ before
IsLeft before after (err (malformed _)) = after ≡ before
IsLeft before after (err (unreachable _)) = after ≡ before
IsLeft before after (err (refused _ _)) = after ≡ before

abbrev pub IsRead : Bool → Held → Type 0
IsRead held yes = held ≡ true
IsRead held no = held ≡ false
IsRead held unknown = Unit

pub unchanged :
    (before after : Bool) (fault : Error)
    → IsLeft before after (err fault)
    → is_uncertain fault ≡ false
    → after ≡ before
unchanged before after (encode _) left certain = left
unchanged before after signature left certain = left
unchanged before after (malformed _) left certain = left
unchanged before after (unreachable _) left certain = left
unchanged before after (uncertain _) left certain = absurd (cc certain)
unchanged before after (refused _ _) left certain = left

module _ {S : Type 0} (net : Net S) (held : S → Bool) (client : Client) (did : Did.Did) where
  exchanged-IsLeft :
      (before after : Bool) (reply : Reply)
      → ((status : ℕ) (said : Option Str)
          → reply ≡ answered status said
          → is_success status ≡ true
          → after ≡ true)
      → ((status : ℕ) (said : Option Str)
          → reply ≡ answered status said
          → is_success status ≡ false
          → is_server_error status ≡ false
          → after ≡ before)
      → ((said : Str) → reply ≡ no_connection said → after ≡ before)
      → IsLeft before after (exchanged net reply)
  unfolding exchanged
  exchanged-IsLeft before after no_answer taken left unsent = tt
  exchanged-IsLeft before after (no_connection said) taken left unsent = unsent said refl
  exchanged-IsLeft before after (broken said) taken left unsent = tt
  exchanged-IsLeft before after (answered status body) taken left unsent =
      elim (Bool-cases (is_success status)) [
        | inl success ↦ rw success (taken status body refl success)
        | inr other ↦ elim (Bool-cases (is_server_error status)) [
          | inl failure ↦ rw (other, failure) tt
          | inr decided ↦ rw (other, decided) (left status body refl other decided)
        ]
      ]

  module _ (honest : IsHonest net held client did) where
    attempt_to-IsLeft :
        (body : Str) (budget : ℕ) (s : S) (m : Result Str Str)
        → net.request_to (address client did) ≡ m
        → IsLeft
            (held s)
            (held (attempt_to net body budget s m).0)
            (attempt_to net body budget s m).1
    unfolding attempt_to
    attempt_to-IsLeft body budget s (err said) to = refl
    attempt_to-IsLeft body budget s (ok target) to =
        exchanged-IsLeft (held s) (held (net.post budget target body s).0)
          (net.post budget target body s).1
          (λ status said. honest.post-success budget target body s status said to)
          (λ status said. honest.post-refused budget target body s status said to)
          (λ said. honest.post-unsent budget target body said s to)

    pub attempt-IsLeft :
        (json : Result Str Str) (budget : ℕ) (s : S)
        → IsLeft
            (held s)
            (held (attempt net client did json budget s).0)
            (attempt net client did json budget s).1
    unfolding attempt
    attempt-IsLeft (err said) budget s = refl
    attempt-IsLeft (ok body) budget s =
        attempt_to-IsLeft body budget s (net.request_to (address client did)) refl

    asked-IsRead :
        (budget : ℕ) (s : S) (m : Result Str Str)
        → net.request_to (address client did) ≡ m
        → (held (asked net did budget s m).0 ≡ held s)
          × IsRead (held s) (asked net did budget s m).1
    unfolding asked
    asked-IsRead budget s (err said) to = (refl, tt)
    asked-IsRead budget s (ok target) to = (
      honest.get-held budget target s to,
      read (document net did (net.get budget target s).1) (honest.get-yes budget target s to)
          (honest.get-no budget target s to),
    )
      where
        read :
            (what : Held)
            → (what ≡ yes → held s ≡ true)
            → (what ≡ no → held s ≡ false)
            → IsRead (held s) what
        read yes there absent = there refl
        read no there absent = absent refl
        read unknown there absent = tt

    pub holds-IsRead :
        (budget : ℕ) (s : S)
        → (held (holds net client did budget s).0 ≡ held s)
          × IsRead (held s) (holds net client did budget s).1
    unfolding holds
    holds-IsRead budget s = asked-IsRead budget s (net.request_to (address client did)) refl

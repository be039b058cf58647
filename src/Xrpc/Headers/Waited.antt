-- ===== src/Xrpc/Headers/Waited.antt =====
-- That `retry-after` is true: a caller that goes past its budget is held until the window ends, and let
-- through after the seconds it was told.
use manapds.Prelude.{
  Bool-cases, Option, Str, all, arith, inl, inr, ltb, none, refl, some, true, ℕ, ◌*◌, ◌+◌, ◌-◌, ◌/◌,
  ◌<◌, ◌^◌, ◌∙◌, ◌≡◌, ◌≤◌,
}
use manapds.Prelude.Bytes.{codes}
use manapds.Prelude.Decimal.{decimal, is_decimal, all-decimal}
use manapds.Prelude.Eq.{Str_eq, str_eq_refl}
use manapds.Prelude.Int.{ℤ}
use manapds.Prelude.Map.{lookup, lookup-insert}
use manapds.Xrpc.Limit.{
  Limiter, Reading, Window, saturating_add32, sweep, uncounted, reading, current, charge,
  turned_away, consume,
}
use manapds.Xrpc.Limit.Budget.{
  consume_free, IsBounded, running, consume-IsBounded, consume-running, lookup-insert_self,
}
use manapds.Xrpc.Headers.{HeaderMap, wait, put_header, write}

-- A call on a key whose window is past the budget goes past it too.
consume_held :
    (now : ℕ) (key : Str) (points : ℕ) (l : Limiter) (w : Window)
    → IsBounded l
    → running now l key ≡ some w
    → l.points < w.points
    → w.points ≤ 2 ^ 32 - 1
    → (consume now key points l).1.exceeded ≡ true
unfolding reading saturating_add32
consume_held now key points l w b e past fits =
    let (_, read) = consume-running now key points l w b e in rw read (ground arith)

-- A call that goes past the budget leaves a window past it, which ends when the reading says.
pub record IsPast (now : ℕ) (key : Str) (before after : Limiter) (r : Reading) : Type 0 where
  pub kept : Window
  pub stands : lookup key after.spent.windows ≡ some kept
  pub points : after.points ≡ before.points
  pub past : before.points < kept.points
  pub fits : kept.points ≤ 2 ^ 32 - 1
  pub ends : now + r.resets_in ≡ kept.until

current-until : (now : ℕ) (l : Limiter) (found : Option Window) → now ≤ (current now l found).until
unfolding current
current-until now l none = omega arith
current-until now l (some w) = ground arith

consume-IsPast :
    (now : ℕ) (key : Str) (points : ℕ) (l : Limiter)
    → (consume now key points l).1.exceeded ≡ true
    → IsPast now key l (consume now key points l).0 (consume now key points l).1
unfolding consume charge saturating_add32 reading uncounted
consume-IsPast now key points l h = elim (Bool-cases (turned_away (sweep now l) key)) [
  | inl away ↦ absurd (cc (rw away at h))
  | inr room ↦
      let w = charge now l (lookup key (sweep now l).windows) points in
      let late = current-until now l (lookup key (sweep now l).windows) in
      rw room (record {
        kept = w;
        stands = lookup-insert_self key w (sweep now l).windows;
        points = refl;
        past = ground arith;
        fits = ground arith;
        ends = ground arith;
      })
]

-- The http crate takes a text of digits as the value of a header.
abbrev pub TakesDigits : (Str → Option Str) → Type 0
TakesDigits from_str = (text : Str) → all is_decimal text ≡ true → from_str text ≡ some text

lookup-put_header :
    (from_str : Str → Option Str) (name text value : Str) (headers : HeaderMap)
    → from_str text ≡ some value
    → lookup name (put_header from_str name text headers) ≡ some value
unfolding put_header
lookup-put_header from_str name text value headers read =
    rw (read, put_header) (ground (arith, lookup-insert name name value headers, str_eq_refl name))

write-wait :
    (from_str : Str → Option Str) (unix : ℤ) (r : Reading) (headers : HeaderMap)
    → TakesDigits from_str
    → r.exceeded ≡ true
    → lookup (codes "retry-after") (write from_str unix r headers) ≡ some (decimal (wait r))
unfolding write
write-wait from_str unix r headers takes past = rw past (
    lookup-put_header from_str (codes "retry-after") (decimal (wait r)) (decimal (wait r)) _
      (takes (decimal (wait r)) (all-decimal (wait r))))

-- Where a text of digits may stand in a header: in a table with each key once and no more keys than it
-- may hold, a call that goes past the budget, with less than 2^64 - 1 seconds to go, is answered with the
-- seconds in `retry-after`, which the window does not outlast; and the key's next call, at any time,
-- with no more points than the whole budget, goes past it exactly where the window still runs.
pub write-consume :
    (from_str : Str → Option Str) (unix : ℤ) (headers : HeaderMap) (now later : ℕ) (key : Str)
    (points more : ℕ) (l : Limiter)
    → TakesDigits from_str
    → IsBounded l
    → (consume now key points l).1.exceeded ≡ true
    → (consume now key points l).1.resets_in / 10 ^ 9 < 2 ^ 64 - 1
    → more ≤ l.points
    → (lookup (codes "retry-after") (write from_str unix (consume now key points l).1 headers)
        ≡ some (decimal (wait (consume now key points l).1)))
      × ((consume now key points l).1.resets_in < wait (consume now key points l).1 * 10 ^ 9)
      × ((consume later key more (consume now key points l).0).1.exceeded
          ≡ ltb later (now + (consume now key points l).1.resets_in))
unfolding wait running
write-consume from_str unix headers now later key points more l takes b past short fits =
    let after = (consume now key points l).0 in
    let r = (consume now key points l).1 in
    let left = consume-IsPast now key points l past in
    let b' = consume-IsBounded now key points l b in
    (
      write-wait from_str unix r headers takes past,
      omega arith,
      elim (Bool-cases (ltb later (now + r.resets_in))) [
        | inl runs ↦
            consume_held later key more after left.kept b' (ground (arith, left.stands, left.ends))
              (omega (arith, left.past, left.points)) left.fits
            ∙ rw runs refl
        | inr over ↦
            consume_free later key more after b' (ground (arith, left.stands, left.ends))
              (omega (arith, left.points))
            ∙ rw over refl
      ],
    )

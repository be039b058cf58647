-- ===== src/Xrpc/Limit.antt =====
-- src/xrpc/limit.rs: one budget (`Limiter`), what a request was told of it (`Reading`), and which of
-- several readings the caller is held to. Instants and durations are nanoseconds; `Instant - Instant`
-- stops at zero, as `-` on ℕ does. The lock is held for the whole of `consume`, so a call is one step.
pub mod Budget
pub mod Trace
pub mod Tightest
use manapds.Prelude.{
  Bool, List, Option, Str, [], false, if◌then◌else◌, leb, length, ltb, min, none, not, some, true,
  ℕ, ◌&&◌, ◌+◌, ◌-◌, ◌^◌, ◌∷◌,
}
use manapds.Prelude.Eq.{Str_eq}
use manapds.Prelude.Map.{Map, lookup, contains_key, insert, retain}

abbrev pub keys_max : ℕ
keys_max = 100000

pub record Window : Type 0 where
  pub points : ℕ
  pub until : ℕ

pub record Counts : Type 0 where
  pub windows : Map Str Window
  pub swept : ℕ
  pub full : Bool

pub record Limiter : Type 0 where
  pub points : ℕ
  pub window : ℕ
  pub spent : Counts

pub record Reading : Type 0 where
  pub limit : ℕ
  pub window : ℕ
  pub spent : ℕ
  pub remaining : ℕ
  pub resets_in : ℕ
  pub exceeded : Bool

-- `Limiter::new`, at the instant `now`.
unfoldable pub new : ℕ → ℕ → ℕ → Limiter
new points window now = record {
  points = points;
  window = window;
  spent = record { windows = []; swept = now; full = false };
}

unfoldable pub saturating_add32 : ℕ → ℕ → ℕ
saturating_add32 a b = min (a + b) (2 ^ 32 - 1)

-- Expired keys are dropped once a window at most.
unfoldable pub sweep : ℕ → Limiter → Counts
sweep now l =
    if leb l.window (now - l.spent.swept)
    then record {
      windows = retain (λ w. ltb now w.until) l.spent.windows;
      swept = now;
      full = false;
    }
    else l.spent

unfoldable pub uncounted : Limiter → Reading
uncounted l = record {
  limit = l.points;
  window = l.window;
  spent = 0;
  remaining = l.points;
  resets_in = l.window;
  exceeded = false;
}

unfoldable pub reading : ℕ → Limiter → Window → Reading
reading now l w = record {
  limit = l.points;
  window = l.window;
  spent = w.points;
  remaining = l.points - w.points;
  resets_in = w.until - now;
  exceeded = ltb l.points w.points;
}

-- The window that the points go to: the key's own while it runs, and a fresh one otherwise.
unfoldable pub current : ℕ → Limiter → Option Window → Window
current now l none = record { points = 0; until = now + l.window }
current now l (some w) =
    if leb w.until now then record { points = 0; until = now + l.window } else w

unfoldable pub charge : ℕ → Limiter → Option Window → ℕ → Window
charge now l found points =
    let w = current now l found in record w { points = saturating_add32 w.points points }

unfoldable pub turned_away : Counts → Str → Bool
turned_away counts key =
    leb keys_max (length counts.windows) && not (contains_key key counts.windows)

unfoldable pub consume : ℕ → Str → ℕ → Limiter → Limiter × Reading
consume now key points l =
    let counts = sweep now l in
    if turned_away counts key
    then (record l { spent = record counts { full = true } }, uncounted l)
    else (let w = charge now l (lookup key counts.windows) points in
        (
          record l { spent = record counts { windows = insert key w counts.windows } },
          reading now l w,
        ))

-- What `min_by_key` compares: `(!exceeded, remaining)`, with false before true.
unfoldable pub reads_before : Reading → Reading → Bool
reads_before a b =
    if a.exceeded
    then (if b.exceeded then ltb a.remaining b.remaining else true)
    else (if b.exceeded then false else ltb a.remaining b.remaining)

-- `min_by_key` keeps the first of equals.
unfoldable pub tightest_from : Reading → List Reading → Reading
tightest_from best [] = best
tightest_from best (r ∷ rs) = tightest_from (if reads_before r best then r else best) rs

unfoldable pub tightest : List Reading → Option Reading
tightest [] = none
tightest (r ∷ rs) = some (tightest_from r rs)

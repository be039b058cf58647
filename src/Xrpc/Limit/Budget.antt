-- ===== src/Xrpc/Limit/Budget.antt =====
-- What one call of `consume` does to the points that each key has spent.
use manapds.Prelude.{
  Bool-cases, Option, Str, arith, false, if◌then◌else◌, inl, inr, leb, length, ltb, none, some,
  true, ℕ, ◌+◌, ◌-◌, ◌<◌, ◌∙◌, ◌≡◌, ◌≢◌, ◌≤◌,
}
use manapds.Prelude.Eq.{Str_eq, str_eq_iff, str_eq_refl}
use manapds.Prelude.Map.{
  contains_key-lookup, insert, lookup-insert, Map, lookup, Distinct, lookup-retain, length-insert,
  length-retain, insert-Distinct, retain-Distinct,
}
use manapds.Xrpc.Limit.{
  Window, Counts, Limiter, keys_max, sweep, current, charge, reading, uncounted, turned_away,
  consume, saturating_add32,
}

-- The table is a map, and holds no more keys than it may.
pub record IsBounded (l : Limiter) : Type 0 where
  pub distinct : Distinct l.spent.windows
  pub bounded : length l.spent.windows ≤ keys_max

-- What an entry of the table says at an instant: points, and when they are given back.
abbrev pub live : ℕ → Option Window → Option Window
live now none = none
live now (some w) = if ltb now w.until then some w else none

-- The running window of a key.
unfoldable pub running : ℕ → Limiter → Str → Option Window
running now l key = live now (lookup key l.spent.windows)

sweep-IsBounded :
    (now : ℕ) (l : Limiter) → IsBounded l → IsBounded (record l { spent = sweep now l })
unfolding sweep
sweep-IsBounded now l b = elim (Bool-cases (leb l.window (now - l.spent.swept))) [
  | inl due ↦ rw due (record {
    distinct = retain-Distinct (λ w. ltb now w.until) l.spent.windows b.distinct;
    bounded = omega (arith, length-retain (λ w. ltb now w.until) l.spent.windows, b.bounded);
  })
  | inr early ↦ rw early b
]

-- Sweeping drops nothing that still runs.
pub running-sweep :
    (now later : ℕ) (l : Limiter) (key : Str)
    → now ≤ later
    → IsBounded l
    → live later (lookup key (sweep now l).windows) ≡ live later (lookup key l.spent.windows)
unfolding sweep
running-sweep now later l key h b =
    ground (arith, lookup-retain (λ (w : Window). ltb now w.until) key l.spent.windows b.distinct)

room :
    (counts : Counts) (key : Str) (w : Window)
    → turned_away counts key ≡ false
    → length counts.windows ≤ keys_max
    → length (insert key w counts.windows) ≤ keys_max
unfolding turned_away
room counts key w taken fits = ground (arith, length-insert key w counts.windows)

-- A call leaves the table with each key once and at most `keys_max` keys, where it was so before.
pub consume-IsBounded :
    (now : ℕ) (key : Str) (points : ℕ) (l : Limiter)
    → IsBounded l
    → IsBounded (consume now key points l).0
unfolding consume
consume-IsBounded now key points l b =
    let s = sweep-IsBounded now l b in
    elim (Bool-cases (turned_away (sweep now l) key)) [
      | inl away ↦ rw away (record { distinct = s.distinct; bounded = s.bounded })
      | inr taken ↦ rw taken (record {
        distinct = insert-Distinct key _ (sweep now l).windows s.distinct;
        bounded = room (sweep now l) key _ taken s.bounded;
      })
    ]

-- A call charges its own key alone: in a table with each key once, any other key's running window,
-- then or later, stays as it was.
pub running-consume_other :
    (now later : ℕ) (key other : Str) (points : ℕ) (l : Limiter)
    → IsBounded l
    → now ≤ later
    → key ≢ other
    → running later (consume now key points l).0 other ≡ running later l other
unfolding consume running
running-consume_other now later key other points l b h ne = ground (
  arith,
  running-sweep now later l other h b,
  str_eq_iff key other,
  lookup-insert key other (charge now l (lookup key (sweep now l).windows) points)
      (sweep now l).windows,
)

pub live-some :
    (now : ℕ) (o : Option Window) (w : Window)
    → live now o ≡ some w
    → (o ≡ some w) × (now < w.until)
live-some now none w e = cc
live-some now (some v) w e = ground arith

found_not_away :
    (counts : Counts) (key : Str) (w : Window)
    → lookup key counts.windows ≡ some w
    → turned_away counts key ≡ false
unfolding turned_away
found_not_away counts key w e = ground (arith, contains_key-lookup key counts.windows)

pub lookup-insert_self :
    (key : Str) (w : Window) (m : Map Str Window) → lookup key (insert key w m) ≡ some w
lookup-insert_self key w m = ground (arith, lookup-insert key key w m, str_eq_refl key)

-- A call on a key with a running window adds its points to that window, whether or not the budget
-- covers them, and the caller reads that window.
pub consume-running :
    (now : ℕ) (key : Str) (points : ℕ) (l : Limiter) (w : Window)
    → IsBounded l
    → running now l key ≡ some w
    → (running now (consume now key points l).0 key
        ≡ some (record w { points = saturating_add32 w.points points }))
      × ((consume now key points l).1
          ≡ reading now l (record w { points = saturating_add32 w.points points }))
unfolding consume running charge current
consume-running now key points l w b e =
    let (found, runs) =
      live-some now (lookup key (sweep now l).windows) w
        (running-sweep now now l key (omega arith) b ∙ e) in
    ground (
      arith,
      found_not_away (sweep now l) key w found,
      lookup-insert_self key (record w { points = saturating_add32 w.points points })
          (sweep now l).windows,
    )

-- A call on a key with no running window, where the table has room, opens one that ends a whole
-- window later and holds the call's points alone.
pub consume_fresh :
    (now : ℕ) (key : Str) (points : ℕ) (l : Limiter)
    → IsBounded l
    → 0 < l.window
    → running now l key ≡ none
    → length (sweep now l).windows < keys_max
    → (running now (consume now key points l).0 key
        ≡ some (record { points = saturating_add32 0 points; until = now + l.window }))
      × ((consume now key points l).1
          ≡ reading now l (record { points = saturating_add32 0 points; until = now + l.window }))
unfolding consume running charge current turned_away
consume_fresh now key points l b lasts e has_room =
    let gone = running-sweep now now l key (omega arith) b ∙ e in
    ground (
      arith,
      lookup-insert_self key (record { points = saturating_add32 0 points; until = now + l.window })
          (sweep now l).windows,
    )

-- A call on a key with no running window is let through where the budget covers it.
pub consume_free :
    (now : ℕ) (key : Str) (points : ℕ) (l : Limiter)
    → IsBounded l
    → running now l key ≡ none
    → points ≤ l.points
    → (consume now key points l).1.exceeded ≡ false
unfolding consume running charge current uncounted reading saturating_add32
consume_free now key points l b e fits =
    let gone = running-sweep now now l key (omega arith) b ∙ e in ground arith

-- Where a call's key is turned away for want of room, no key's running window changes, then or later,
-- and the caller reads an untouched budget.
consume_away :
    (now later : ℕ) (key other : Str) (points : ℕ) (l : Limiter)
    → IsBounded l
    → now ≤ later
    → turned_away (sweep now l) key ≡ true
    → (running later (consume now key points l).0 other ≡ running later l other)
      × ((consume now key points l).1 ≡ uncounted l)
unfolding consume running
consume_away now later key other points l b h away =
    ground (arith, running-sweep now later l other h b)

-- ===== src/Syntax/Tid/Mint.antt =====
-- The clock only goes up: each TID it mints sorts above the last, until its range is used up.
use manapds.Prelude.{
  Option, Str, arith, lt→ltb, max, none, refl, some, true, ℕ, ◌%◌, ◌*◌, ◌+◌, ◌-◌, ◌<◌, ◌∙◌, ◌≡◌,
  ◌≤◌, ap,
}
use manapds.Prelude.Bytes.{str_lt}
use manapds.Prelude.Result.{ok}
use manapds.Syntax.Tid.{
  Tid, Clock, to_parts, from_parts, parse, mint, mint_after, saturating_add64, micros_end,
  clock_ids,
}
use manapds.Syntax.Tid.Codec.{to_parts-from_parts}
use manapds.Syntax.Tid.Valid.{to_parts_lt, parse-text, parse-from_parts}
use manapds.Syntax.Tid.Order.{position, str_lt-parse}

position-from_parts :
    (micros clock_id : ℕ)
    → position (from_parts micros clock_id) ≡ micros % micros_end * 1024 + clock_id % clock_ids
position-from_parts micros clock_id = rw (to_parts-from_parts micros clock_id)

position-lt :
    (s : Str) {a : Tid} (micros clock_id : ℕ)
    → parse s ≡ ok a
    → (to_parts a).0 < micros
    → micros < micros_end
    → str_lt s (from_parts micros clock_id).text ≡ true
position-lt s {a} micros clock_id h below inside =
    str_lt-parse s (from_parts micros clock_id).text h (parse-from_parts micros clock_id)
    ∙ lt→ltb (position a) (position (from_parts micros clock_id))
        (omega (arith, position-from_parts micros clock_id, to_parts_lt a))

-- The TID that `mint` returns is made from the clock's new timestamp.
pub mint_tid :
    (wall : Option ℕ) (c : Clock) → (mint wall c).1 ≡ from_parts (mint wall c).0.last c.clock_id
unfolding mint
mint_tid wall c = refl

pub mint_last :
    (wall : Option ℕ) (c : Clock)
    → ((mint wall c).0.last < micros_end)
      × (c.last < micros_end - 1 → c.last < (mint wall c).0.last)
      × ((mint wall c).0.clock_id ≡ c.clock_id)
unfolding mint saturating_add64
mint_last wall c = ground arith

-- After a mint that left room in the range, the next one is a TID that sorts above it, whatever the
-- wall clock says at either.
pub mint-climbs :
    (wall wall' : Option ℕ) (c : Clock)
    → (mint wall c).0.last < micros_end - 1
    → str_lt (mint wall c).1.text (mint wall' (mint wall c).0).1.text ≡ true
mint-climbs wall wall' c room =
    let (_, up, same) = mint_last wall' (mint wall c).0 in
    let (inside, _, _) = mint_last wall' (mint wall c).0 in
    let parts = to_parts-from_parts (mint wall c).0.last c.clock_id in
    rw (mint_tid wall c, mint_tid wall' (mint wall c).0)
      (position-lt (from_parts (mint wall c).0.last c.clock_id).text
        (mint wall' (mint wall c).0).0.last (mint wall c).0.clock_id
        (parse-from_parts (mint wall c).0.last c.clock_id) (rw parts (omega (arith, up room)))
        inside)

abbrev raised : Clock → Tid → Clock
raised c previous = record c { last = max c.last (to_parts previous).0 }

mint_after-some :
    (wall : Option ℕ) (c : Clock) (previous : Tid) {t : Tid}
    → (mint_after wall c previous).1 ≡ some t
    → ((raised c previous).last < micros_end - 1)
      × (t ≡ (mint wall (raised c previous)).1)
      × ((mint_after wall c previous).0.last ≡ (mint wall (raised c previous)).0.last)
unfolding mint_after
mint_after-some wall c previous e = ground arith

-- Where the TID to follow is one that parsed, what `mint_after` returns sorts above it, its
-- timestamp is past the clock's last one, and it is the clock's last one from then on.
pub mint_after-climbs :
    (wall : Option ℕ) (c : Clock) (s : Str) {previous : Tid} {t : Tid}
    → parse s ≡ ok previous
    → (mint_after wall c previous).1 ≡ some t
    → (str_lt previous.text t.text ≡ true)
      × (c.last < (to_parts t).0)
      × ((mint_after wall c previous).0.last ≡ (to_parts t).0)
mint_after-climbs wall c s {previous} {t} h e =
    let (room, made, stays) = mint_after-some wall c previous e in
    let (inside, up, _) = mint_last wall (raised c previous) in
    let m : ℕ = (mint wall (raised c previous)).0.last in
    let tid : t ≡ from_parts m c.clock_id = made ∙ mint_tid wall (raised c previous) in
    let parts = to_parts-from_parts m c.clock_id in
    let (text, _) = parse-text h in
    let h' : parse previous.text ≡ ok previous = ap parse text ∙ h in
    rw (stays, tid)
      (
        position-lt previous.text m c.clock_id h' (omega (arith, up room)) inside,
        rw parts (omega (arith, up room)),
        rw parts (omega arith),
      )

mint_after_full :
    (wall : Option ℕ) (c : Clock) (previous : Tid)
    → (mint_after wall c previous).1 ≡ none
    → micros_end - 1 ≤ (raised c previous).last
unfolding mint_after
mint_after_full wall c previous e = ground arith

-- `mint_after` refuses only where the clock, or the TID to follow, has reached the last timestamp:
-- no TID made from any parts has a later timestamp than the greater of the two.
mint_after-none :
    (wall : Option ℕ) (c : Clock) (previous : Tid) (micros clock_id : ℕ)
    → (mint_after wall c previous).1 ≡ none
    → (to_parts (from_parts micros clock_id)).0 ≤ max c.last (to_parts previous).0
mint_after-none wall c previous micros clock_id e =
    let full : micros_end - 1 ≤ max c.last (to_parts previous).0 =
      mint_after_full wall c previous e in
    rw (to_parts-from_parts micros clock_id) (omega arith)

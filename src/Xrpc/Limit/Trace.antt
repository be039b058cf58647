-- ===== src/Xrpc/Limit/Trace.antt =====
-- Calls one after another: what a key is let through in one window never passes the budget.
use manapds.Prelude.{
  Bool-cases, List, Str, [], ap, arith, false, if◌then◌else◌, inl, inr, ltb, not, some, ℕ, ◌&&◌,
  ◌+◌, ◌-◌, ◌<◌, ◌^◌, ◌∙◌, ◌∷◌, ◌≡◌, ◌≢◌, ◌≤◌, none, length,
}
use manapds.Prelude.Eq.{Str_eq, str_eq_iff}
use manapds.Prelude.Bytes.{str_eq}
use manapds.Prelude.Map.{lookup}
use manapds.Xrpc.Limit.{
  Window, Limiter, Reading, sweep, keys_max, consume, reading, saturating_add32,
}
use manapds.Xrpc.Limit.Budget.{
  consume_fresh, IsBounded, running, live-some, consume-IsBounded, running-consume_other,
  consume-running,
}

-- One request that reaches the budget.
pub record Call : Type 0 where
  pub now : ℕ
  pub key : Str
  pub points : ℕ

-- The points of the calls on `key` that were not told that they went past the budget.
unfoldable pub admitted : Str → Limiter → List Call → ℕ
admitted key l [] = 0
admitted key l (c ∷ cs) =
    let (l', r) = consume c.now c.key c.points l in
    let rest = admitted key l' cs in
    if str_eq key c.key && not r.exceeded then c.points + rest else rest

-- The calls come in order, from `start` on and before `until`.
abbrev pub Within : ℕ → ℕ → List Call → Type 0
Within start until [] = Unit
Within start until (c ∷ cs) = (start ≤ c.now) × (c.now < until) × Within c.now until cs

points-consume :
    (now : ℕ) (key : Str) (points : ℕ) (l : Limiter)
    → (consume now key points l).0.points ≡ l.points
unfolding consume
points-consume now key points l = ground arith

running_later :
    (now later : ℕ) (l : Limiter) (key : Str) (w : Window)
    → running now l key ≡ some w
    → later < w.until
    → running later l key ≡ some w
unfolding running
running_later now later l key w e h =
    let (found, _) = live-some now (lookup key l.spent.windows) w e in ground arith

-- The points added, while the budget covers them, are added exactly.
add_admitted :
    (limit p points rest : ℕ)
    → limit < 2 ^ 32 - 1
    → ltb limit (saturating_add32 p points) ≡ false
    → rest ≤ limit - saturating_add32 p points
    → points + rest ≤ limit - p
unfolding saturating_add32
add_admitted limit p points rest small fits h = ground arith

add_refused :
    (limit p points rest : ℕ)
    → limit < 2 ^ 32 - 1
    → rest ≤ limit - saturating_add32 p points
    → rest ≤ limit - p
unfolding saturating_add32
add_refused limit p points rest small h = ground arith

-- While a key's window runs, the calls on it that are let through spend no more than what was left
-- of the budget when they began, whatever other keys call in between.
pub admitted-le_left :
    (start : ℕ) (key : Str) (l : Limiter) (w : Window) (calls : List Call)
    → IsBounded l
    → l.points < 2 ^ 32 - 1
    → running start l key ≡ some w
    → Within start w.until calls
    → admitted key l calls ≤ l.points - w.points
unfolding admitted reading
admitted-le_left start key l w [] b small e order = omega arith
admitted-le_left start key l w (c ∷ cs) b small e (after, before, order) =
    let l' : Limiter = (consume c.now c.key c.points l).0 in
    let same_points = points-consume c.now c.key c.points l in
    let b' = consume-IsBounded c.now c.key c.points l b in
    let small' : l'.points < 2 ^ 32 - 1 = rw same_points small in
    let still = running_later start c.now l key w e before in
    elim (Bool-cases (str_eq key c.key)) [
      | inl mine ↦
          let same = (str_eq_iff key c.key).0 mine in
          let (runs, reads) = consume-running c.now c.key c.points l w b (rw same at still) in
          let w' : Window = record w { points = saturating_add32 w.points c.points } in
          let ih = admitted-le_left c.now key l' w' cs b' small' (rw same runs) order in
          ground (
            arith,
            ap (λ (r : Reading). r.exceeded) reads,
            add_admitted l.points w.points c.points (admitted key l' cs) small,
            add_refused l.points w.points c.points (admitted key l' cs) small,
          )
      | inr other ↦
          let differs : c.key ≢ key = λ q. ground (arith, str_eq_iff key c.key) in
          let kept =
            running-consume_other c.now c.now c.key key c.points l b (omega arith) differs in
          let ih = admitted-le_left c.now key l' w cs b' small' (kept ∙ still) order in ground arith
    ]

-- In a table with each key once that has room, where the budget is under the most that a `u32`
-- holds: a call that opens a window of its key, and the calls that follow in order before it ends,
-- on whatever keys, are let through on that key with no more points than the whole budget.
pub admitted-le_points :
    (c : Call) (cs : List Call) (l : Limiter)
    → IsBounded l
    → l.points < 2 ^ 32 - 1
    → 0 < l.window
    → running c.now l c.key ≡ none
    → length (sweep c.now l).windows < keys_max
    → Within c.now (c.now + l.window) cs
    → admitted c.key l (c ∷ cs) ≤ l.points
unfolding admitted reading
admitted-le_points c cs l b small lasts fresh has_room order =
    let l' : Limiter = (consume c.now c.key c.points l).0 in
    let same_points = points-consume c.now c.key c.points l in
    let b' = consume-IsBounded c.now c.key c.points l b in
    let small' : l'.points < 2 ^ 32 - 1 = rw same_points small in
    let w' : Window = record { points = saturating_add32 0 c.points; until = c.now + l.window } in
    let (runs, reads) = consume_fresh c.now c.key c.points l b lasts fresh has_room in
    let ih = admitted-le_left c.now c.key l' w' cs b' small' runs order in
    ground (
      arith,
      ap (λ (r : Reading). r.exceeded) reads,
      add_admitted l.points 0 c.points (admitted c.key l' cs) small,
      add_refused l.points 0 c.points (admitted c.key l' cs) small,
    )

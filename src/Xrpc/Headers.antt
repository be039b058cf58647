-- ===== src/Xrpc/Headers.antt =====
-- src/xrpc/limit.rs: the headers that tell a caller what it has left (`Reading::write`). The check that a
-- text may stand in a header is the http crate's, and an argument.
pub mod Waited
use manapds.Prelude.{Option, Str, if◌then◌else◌, ltb, min, none, some, ℕ, ◌++◌, ◌+◌, ◌-◌, ◌/◌, ◌^◌}
use manapds.Prelude.Bytes.{codes}
use manapds.Prelude.Decimal.{decimal, decimal_ℤ}
use manapds.Prelude.Eq.{Str_eq}
use manapds.Prelude.Int.{ℤ, ◌+ℤ◌}
use manapds.Prelude.Map.{Map, insert}
use manapds.Xrpc.Limit.{Reading}

abbrev pub HeaderMap : Type 0
HeaderMap = Map Str Str

-- `Duration::as_secs`
abbrev pub as_secs : ℕ → ℕ
as_secs nanos = nanos / 10 ^ 9

-- `u64::cast_signed`
abbrev pub cast_signed : ℕ → ℤ
cast_signed n = if ltb n (2 ^ 63) then ℤ.pos n else ℤ.negsuc (2 ^ 64 - n - 1)

-- What `retry-after` says.
unfoldable pub wait : Reading → ℕ
wait r = min (as_secs r.resets_in + 1) (2 ^ 64 - 1)

module _ (from_str : Str → Option Str) where
  -- The closure of `write`: a text that may not stand in a header is left out.
  unfoldable pub put_header : Str → Str → HeaderMap → HeaderMap
  put_header name text headers = elim (from_str text) [
    | none ↦ headers
    | some value ↦ insert name value headers
  ]

  -- `Reading::write`, at a wall clock of `now` seconds.
  unfoldable pub write : ℤ → Reading → HeaderMap → HeaderMap
  unfolding put_header wait
  write now r headers =
      let told =
        put_header (codes "ratelimit-policy")
          (decimal r.limit ++ (codes ";w=" ++ decimal (as_secs r.window)))
          (put_header (codes "ratelimit-reset")
            (decimal_ℤ (now +ℤ cast_signed (as_secs r.resets_in)))
            (put_header (codes "ratelimit-remaining") (decimal r.remaining)
              (put_header (codes "ratelimit-limit") (decimal r.limit) headers))) in
      if r.exceeded then put_header (codes "retry-after") (decimal (wait r)) told else told

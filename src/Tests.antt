-- ===== src/Tests.antt =====
-- The theorems on identifiers and on rate limits at concrete inputs.
use manapds.Prelude.{refl, none, arith, some, ◌<◌, ◌^◌, ◌≡◌, ltb, true, ◌%◌, ◌-◌}
use manapds.Prelude.Bytes.{is_utf8, utf8_from, codes, str_lt}
use manapds.Prelude.Result.{ok}
use manapds.Syntax.Tid
use manapds.Syntax.Tid.{from_parts, to_parts, mint, mint_after, Clock}
use manapds.Syntax.Tid.Codec.{to_parts-from_parts}
use manapds.Syntax.Tid.Valid.{parse-from_parts, from_parts-to_parts}
use manapds.Syntax.Tid.Order.{position, str_lt-parse}
use manapds.Syntax.Tid.Mint.{mint-climbs, mint_after-climbs}
use manapds.Syntax.Handle
use manapds.Syntax.RecordKey
use manapds.Syntax.AtUri
use manapds.Syntax.Nsid
use manapds.Syntax.AtIdentifier
use manapds.Syntax.AtUri.Printed.{to_string-parse}

tid_text_of_parts : (from_parts 1700000000000000 17).text ≡ codes "3ke6kg3wk222l"
unfolding from_parts Tid.encode Tid.encode_from Tid.digit_char
tid_text_of_parts = refl

abbrev early : Tid.Tid
early = record { text = codes "3ke6kg3wk222l" }

abbrev late : Tid.Tid
late = record { text = codes "3lywl4sbs22zz" }

early_parses : Tid.parse (codes "3ke6kg3wk222l") ≡ ok early
unfolding Tid.parse Tid.validate Tid.is_digit Tid.is_first_digit
early_parses = refl

late_parses : Tid.parse (codes "3lywl4sbs22zz") ≡ ok late
unfolding Tid.parse Tid.validate Tid.is_digit Tid.is_first_digit
late_parses = refl

to_parts-from_parts_example :
    to_parts (from_parts 1700000000000000 1041) ≡ (1700000000000000 % 2 ^ 53, 1041 % 2 ^ 10)
to_parts-from_parts_example = to_parts-from_parts 1700000000000000 1041

parse-from_parts_example :
    Tid.parse (from_parts 1700000000000000 17).text ≡ ok (from_parts 1700000000000000 17)
parse-from_parts_example = parse-from_parts 1700000000000000 17

early_fits : (to_parts early).0 < 2 ^ 53
unfolding to_parts Tid.push_digit Tid.digit
early_fits = omega arith

from_parts-to_parts_example : from_parts (to_parts early).0 (to_parts early).1 ≡ early
from_parts-to_parts_example = from_parts-to_parts (codes "3ke6kg3wk222l") early_parses early_fits

str_lt-parse_example :
    str_lt (codes "3ke6kg3wk222l") (codes "3lywl4sbs22zz") ≡ ltb (position early) (position late)
str_lt-parse_example =
    str_lt-parse (codes "3ke6kg3wk222l") (codes "3lywl4sbs22zz") early_parses late_parses

abbrev clock : Clock
clock = record { clock_id = 5; last = 1700000000000000 }

room : (mint none clock).0.last < 2 ^ 53 - 1
unfolding mint
room = omega arith

mint-climbs_example :
    str_lt (mint none clock).1.text (mint (some 7) (mint none clock).0).1.text ≡ true
mint-climbs_example = mint-climbs none (some 7) clock room

minted_after : (mint_after none clock late).1 ≡ some (from_parts 1758000000000001 5)
unfolding mint_after to_parts Tid.push_digit Tid.digit from_parts mint
minted_after = refl

mint_after-climbs_example :
    (str_lt late.text (from_parts 1758000000000001 5).text ≡ true)
    × (clock.last < (to_parts (from_parts 1758000000000001 5)).0)
    × ((mint_after none clock late).0.last ≡ (to_parts (from_parts 1758000000000001 5)).0)
mint_after-climbs_example =
    mint_after-climbs none clock (codes "3lywl4sbs22zz") late_parses minted_after

abbrev ceiling : Clock
ceiling = record { clock_id = 5; last = 2 ^ 53 - 1 }

none_after : (mint_after none ceiling late).1 ≡ none
unfolding mint_after to_parts Tid.push_digit Tid.digit
none_after = refl

abbrev mixed : Handle.Handle
mixed = record { text = codes "Alice.Test" }

mixed_parses : Handle.parse (codes "Alice.Test") ≡ ok mixed
unfolding Handle.parse Handle.validate Handle.validate_labels Handle.validate_label
mixed_parses = refl

abbrev uri : AtUri.AtUri
uri = record {
  authority = AtIdentifier.handle (record { text = codes "alice.test" });
  collection = some (record { text = codes "app.bsky.feed.post" });
  rkey = some (record { text = codes "3jui7kd54zh2y" });
  fragment = some (codes "/te%20xt");
}

uri_parses :
    AtUri.parse (codes "at://alice.test/app.bsky.feed.post/3jui7kd54zh2y#/te%20xt") ≡ ok uri
unfolding AtUri.parse AtUri.is_allowed AtUri.is_pointer_byte AtUri.parse_rest AtIdentifier.parse
    Handle.parse Handle.validate Handle.validate_labels Handle.validate_label Nsid.parse
    Nsid.validate Nsid.validate_segments Nsid.validate_segment RecordKey.parse RecordKey.validate
    RecordKey.is_allowed AtUri.validate_fragment AtUri.validate_percent_encoding is_utf8 utf8_from
    AtUri.decode AtUri.hex
uri_parses = refl

to_string-parse_example :
    AtUri.to_string uri ≡ codes "at://alice.test/app.bsky.feed.post/3jui7kd54zh2y#/te%20xt"
to_string-parse_example =
    to_string-parse (codes "at://alice.test/app.bsky.feed.post/3jui7kd54zh2y#/te%20xt") uri
      uri_parses

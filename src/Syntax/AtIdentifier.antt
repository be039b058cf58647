-- ===== src/Syntax/AtIdentifier.antt =====
-- src/syntax/at_identifier.rs: a DID or a handle, told apart by the prefix.
use manapds.Prelude.{Str, none, some}
use manapds.Prelude.Bytes.{codes, strip_prefix}
use manapds.Prelude.Result.{Result, ok, ◌>>=◌}
use manapds.Syntax.{Error}
use manapds.Syntax.Did
use manapds.Syntax.Handle

pub data AtIdentifier : Type 0 where
  did : Did.Did → AtIdentifier
  handle : Handle.Handle → AtIdentifier

abbrev pub as_str : AtIdentifier → Str
as_str (did d) = d.text
as_str (handle h) = h.text

unfoldable pub parse : Str → Result Error AtIdentifier
parse input = elim (strip_prefix (codes "did:") input) [
  | some _ ↦ do d ← Did.parse input; ok (did d)
  | none ↦ do h ← Handle.parse input; ok (handle h)
]

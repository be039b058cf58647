-- ===== src/Syntax.antt =====
-- Identifiers (src/syntax.rs): what the parsers reject, and how an identifier comes to be.
pub mod Tid
pub mod Did
pub mod Handle
pub mod Nsid
pub mod RecordKey
pub mod AtIdentifier
pub mod AtUri
use manapds.Prelude.{String}

-- `Error`; the text is the rule that was broken.
pub data Error : Type 0 where
  at_uri : String → Error
  did : String → Error
  handle : String → Error
  nsid : String → Error
  record_key : String → Error
  tid : String → Error

-- ===== src/Repo.antt =====
-- src/repo.rs: what can go wrong with a repository. A CID is its binary form.
pub mod Block
pub mod Mst
pub mod Car
pub mod Write
pub mod Commit
pub mod Revision
use manapds.Prelude.{Str, String, ℕ}
use manapds.Crypto

abbrev pub Cid : Type 0
Cid = Str

pub data Error : Type 0 where
  missing_block : Cid → Error
  encode : String → Error
  decode : String → Error
  invalid_key : Str → Error
  key_exists : Str → Error
  key_missing : Str → Error
  malformed_node : String → Error
  wrong_version : ℕ → Error
  signature : Crypto.Error → Error
  malformed_car : String → Error
  wrong_cid : Cid → Error
  store : String → Error
  store_busy : Error
  not_record_data : String → Error
  no_revision_after : Str → Error

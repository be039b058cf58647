-- ===== src/Account.antt =====
-- Accounts: the rules on top of the protocol's, of which handles may be taken.
pub mod HandleRules
mod Tests

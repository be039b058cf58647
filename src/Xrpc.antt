-- ===== src/Xrpc.antt =====
-- src/xrpc: the layer between HTTP and the methods.
pub mod Limit
pub mod Caller
pub mod Limits
pub mod Headers
pub mod Status
pub mod Failure
pub mod Auth
pub mod Credential
mod Tests

-- ===== src/Store/Sessions.antt =====
-- src/state/store.ts: the persistent sessions of the backends that keep a thread of their own.
pub mod Table
pub mod Input
pub mod Bind
pub mod Attempt
pub mod Turns
pub mod Answers
pub mod Claim
pub mod Receipt
mod Examples
pub mod Endings
pub mod Disconnect
pub mod Release

-- ===== src/Store.antt =====
-- src/state/store.ts: the durable job store.
pub mod Table
pub mod Schema
pub mod Monad
pub mod Ledger
pub mod Reads
pub mod Intents
pub mod Jobs
pub mod Outbox
pub mod Lists
pub mod Polling
pub mod Claim
pub mod Sessions
pub mod Recovery
pub mod Restart
pub mod Commands
pub mod Lifecycle
pub mod Steps
pub mod Invariant
pub mod EarlyCancel
mod Examples

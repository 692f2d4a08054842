-- ===== src/Store/Invariant.antt =====
-- Invariants of the database of src/state/store.ts, each kept by every write of the abstract store.
pub mod Rows
pub mod Sessions
pub mod Keys
pub mod Intents
pub mod Ledger
pub mod Numbering
pub mod Backends

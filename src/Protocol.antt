-- ===== src/Protocol.antt =====
-- src/protocol/livis.ts: the messages of the LiViS relay.
pub mod Json
pub mod Livis
pub mod Intake
pub mod Candidates
mod Examples

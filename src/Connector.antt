-- ===== src/Connector.antt =====
-- src/connector/server.ts: the server to which the Hermes connector connects.
pub mod Versions
pub mod Messages
pub mod Fields
pub mod Intake
pub mod Server
pub mod Hello
pub mod Loop
pub mod Generations
pub mod Fencing
pub mod Transits
pub mod Callbacks
pub mod Runs
pub mod Progress
mod Examples

-- ===== src/Daemon.antt =====
-- src/daemon.ts: the handlers of the relay and of the execution backend, over the job store.
pub mod State
pub mod Dispatch
pub mod Relay
pub mod Execution
pub mod Results
pub mod Upstream
pub mod Loop
pub mod Frames
pub mod Commands
pub mod Held
pub mod Turns
pub mod Refinement
pub mod Renewal
pub mod Once
pub mod Expiry
pub mod Acks
pub mod Examples

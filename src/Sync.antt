-- ===== src/Sync.antt =====
-- The SYNC-01 protocol reference: packages/sync-protocol/src/ameme_sync_protocol/{model,simulator}.py.
pub mod Envelope
pub mod State
pub mod Semantics
pub mod Receive
pub mod Project
pub mod Report
pub mod Harness
mod Tests

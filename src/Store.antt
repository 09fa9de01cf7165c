-- ===== src/Store.antt =====
-- The event node store with its JSON state: services/ameme-mcp-mock/ameme_mcp_mock/event_store.py (scope and
-- errors) and services/ameme-mcp-mock/ameme_mcp_mock/store.py (`JsonStore`).
pub mod State
pub mod Capture
pub mod Retract
pub mod Visible
pub mod Roundtrip
pub mod Revising
pub mod Undoing
pub mod Listing
pub mod Members
pub mod Permitted
pub mod Answering
mod Tests

-- ===== src/Policy.antt =====
-- The policy layer behind the agent's tools: services/ameme-mcp-mock/ameme_mcp_mock/core.py.
mod Tests
pub mod State
pub mod Calls
pub mod Grants
pub mod Pairing
pub mod Recall
pub mod Budget

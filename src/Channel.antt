-- ===== src/Channel.antt =====
-- The authenticated channel to the local node:
-- packages/agent-local-node-protocol/ameme_agent_local_node_protocol/channel.py.
mod Tests
pub mod Secrets
pub mod Checks
pub mod Pairing
pub mod Hello
pub mod Frames

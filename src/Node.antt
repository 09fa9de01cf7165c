-- ===== src/Node.antt =====
-- The protocol of the agent with the local node:
-- packages/agent-local-node-protocol/ameme_agent_local_node_protocol/protocol.py.
pub mod Tests
pub mod Codec
pub mod Checks
pub mod Payload
pub mod Request
pub mod Response
pub mod Lines
pub mod Ledger

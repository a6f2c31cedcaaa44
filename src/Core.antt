-- ===== src/Core.antt =====
-- The agent itself, core/: the protocol of its tool calls, the registry of tools, and the loop.
pub mod Json
pub mod Protocol
pub mod Registry
pub mod Agent

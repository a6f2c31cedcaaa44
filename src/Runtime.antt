-- ===== src/Runtime.antt =====
-- The runtime of the assistant, runtime/: the authorisation of privileged turns, and the tools of each
-- kind of agent.
pub mod PrivilegedTurn
pub mod ToolProfiles

-- ===== src/AgentRun.antt =====
-- runtime/internal/agentrun.go and agentexec_error.go: how a run request is dispatched.
pub mod Defs
pub mod Dispatch

-- ===== src/Profiles.antt =====
-- runtime/internal/agentprofiles/agent_profiles.go: profiles, and the normalisation that every
-- backend applies before it stores one.
pub mod Defs
pub mod Lists
pub mod Normal

-- ===== src/ProfileFiles.antt =====
-- `FileAgentProfilesService` of runtime/internal/agentprofiles/file_agent_profiles_service.go:
-- profiles as Markdown files with a YAML frontmatter.
pub mod Markdown
pub mod Service
pub mod Parsing
pub mod Restoring
pub mod Created

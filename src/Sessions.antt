-- ===== src/Sessions.antt =====
-- runtime/internal/sessions: session metadata in memory and in index files, its paging, and the
-- wrapper that keeps it in step with the sessions.
pub mod Metadata
pub mod Paging
pub mod Prefixes
pub mod StateDelta
pub mod Sync

-- ===== src/FileSessions.antt =====
-- `FileSessionService` of runtime/internal/sessions/file.go: sessions as JSON files.
pub mod Disk
pub mod Service
pub mod Listing
pub mod Unlistable
pub mod Frames
pub mod Whole
pub mod Created
pub mod Appending
pub mod Appended
pub mod Filters

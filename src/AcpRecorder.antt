-- ===== src/AcpRecorder.antt =====
-- runtime/internal/acpstdio/session_recorder.go: the history of an ACP run, as events of the
-- session storage.
pub mod Events
pub mod Service
pub mod Projected
pub mod Logged
pub mod Complete

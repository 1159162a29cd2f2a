-- ===== src/Workspace.antt =====
-- tools/workspacefs/internal/workspacefs: the paths of read.go, which every tool of a workspace
-- goes through, and the replacement of edit.go.
pub mod Paths
pub mod Confined
pub mod Edit
pub mod Replacing
pub mod Read
pub mod Lines
pub mod Lengths
pub mod Bounded

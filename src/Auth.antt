-- ===== src/Auth.antt =====
-- apps/sonalmod/internal/auth: refresh tokens on disk, login and refresh.
pub mod RefreshStore
pub mod Service
pub mod Rotation
pub mod UserStore
pub mod Distinct
pub mod Usernames

-- ===== src/Witnesses.antt =====
-- The theorems at concrete inputs.
pub mod Buses
pub mod Runners
pub mod Requests
pub mod Stores
pub mod Files
pub mod Configs
pub mod Records

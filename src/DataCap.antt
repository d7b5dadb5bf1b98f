-- ===== src/DataCap.antt =====
-- Bandwidth notices of the desktop client (desktop/datacap/datacap.go).
pub mod Notify
pub mod Levels
pub mod Updates

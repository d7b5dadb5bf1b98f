-- ===== src/Settings.antt =====
-- The desktop settings (desktop/app/settings.go).
pub mod Value
pub mod Names
pub mod Store
pub mod Messages
pub mod Types
pub mod Safety
pub mod Writes
pub mod Protected
pub mod Saved
pub mod Load
pub mod Migration
pub mod Accessors
pub mod RoundTrip

-- ===== src/Desktop.antt =====
-- The desktop application (desktop/app and desktop/auth.go).
pub mod Users
pub mod Refreshed
pub mod Auth
pub mod SignedOut
pub mod Lifecycle
pub mod Exports
pub mod Renewed
pub mod Exits

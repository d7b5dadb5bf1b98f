-- ===== src/Ios.antt =====
-- The configuration and the geolocation of the iOS client (internalsdk/ios).
pub mod Disk
pub mod Config
pub mod Fetch
pub mod Configure
pub mod Reopen
pub mod Excluded
pub mod Geo
pub mod Backoff
pub mod Restart

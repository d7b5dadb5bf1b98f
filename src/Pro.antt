-- ===== src/Pro.antt =====
-- The Pro client (internalsdk/pro): the user's data, the polling loop, and the cache of plans.
pub mod User
pub mod Status
pub mod Poll
pub mod Exclusion
pub mod Plans
pub mod Client
pub mod Logos
pub mod Cache

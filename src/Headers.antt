-- ===== src/Headers.antt =====
-- Headers of internal requests and cross-origin requests (internalsdk/common/headers.go and
-- internalsdk/common/user_config.go).
pub mod Header
pub mod Common
pub mod Passing
pub mod Auth
pub mod Cors
pub mod Preflight

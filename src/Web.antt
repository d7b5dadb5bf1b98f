-- ===== src/Web.antt =====
-- The requests that the SDK sends to its servers (internalsdk/webclient, internalsdk/auth).
pub mod Client
pub mod Printed
pub mod Auth
pub mod SignIn

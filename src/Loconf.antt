-- ===== src/Loconf.antt =====
-- The locale-based configuration of surveys and announcements (desktop/loconf/loconf.go and
-- desktop/app/loconfscanner.go).
pub mod Conf
pub mod Announce
pub mod Scanner
pub mod Keys
pub mod Due
pub mod Once

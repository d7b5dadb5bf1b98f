-- ===== src/Tests.antt =====
-- Concrete runs of the models, at which the theorems are applied.
mod Settings
mod Loconf
mod DataCap
mod Ws
mod Pro
mod Headers
mod Session
mod Ios
mod Shown
mod Desktop
mod Tunnel
mod Udp
mod Web

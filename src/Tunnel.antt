-- ===== src/Tunnel.antt =====
-- The tunnel of the iOS client (internalsdk/ios): connections, the writing of packets, memory.
pub mod Tcp
pub mod Dials
pub mod Settled
pub mod Udp
pub mod Steps
pub mod Leak
pub mod Idle
pub mod Watched
pub mod Client
pub mod Start

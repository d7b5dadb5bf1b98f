-- ===== src/Ws.antt =====
-- The channel between the desktop client and its UI (desktop/ws/ws.go and desktop/ws/service.go).
pub mod Clients
pub mod Safety
pub mod Delivery
pub mod Services
pub mod Registry
pub mod Inbox

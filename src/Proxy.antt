-- ===== src/Proxy.antt =====
-- src/proxy.
pub mod Client
pub mod Handshake

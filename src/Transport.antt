-- ===== src/Transport.antt =====
-- Ways to the client and to the datacentres (src/transport).
pub mod ProxyProtocol

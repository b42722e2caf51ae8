-- ===== src/Protocol.antt =====
-- src/protocol.
pub mod Constants
pub mod Obfuscation
pub mod Tls

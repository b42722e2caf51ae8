-- ===== src/Crypto.antt =====
-- src/crypto.
pub mod Random
pub mod Aes
pub mod Ctr

-- ===== src/Network.antt =====
-- src/network, and the address types of the standard library that the program uses.
pub mod Addr

-- ===== src/MiddleProxy.antt =====
-- src/transport/middle_proxy.
pub mod Registry
pub mod Codec

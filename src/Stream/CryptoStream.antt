-- ===== src/Stream/CryptoStream.antt =====
-- src/stream/crypto_stream.rs: streams that encrypt and decrypt with AES-CTR. What is left of a
-- cipher's state is the position in its keystream (`Crypto/Ctr`).
pub mod Pending
pub mod Writer
pub mod Reader
pub mod Tunnel
pub mod Stack
mod Examples

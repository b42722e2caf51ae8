-- ===== src/Stream.antt =====
-- src/stream.
pub mod Frame
pub mod FrameCodec
pub mod State
pub mod Io
pub mod TlsStream
pub mod CryptoStream

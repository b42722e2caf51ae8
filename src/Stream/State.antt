-- ===== src/Stream/State.antt =====
-- The buffers of src/stream/state.rs that the stream wrappers hold.
pub mod Header
pub mod Yield
pub mod Write

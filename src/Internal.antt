-- ===== src/Internal.antt =====
-- The types that the engine and the sidecar share (serpentine_internal).
pub mod Frames
pub mod Files
pub mod Network

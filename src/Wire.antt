-- ===== src/Wire.antt =====
-- The package internal/wire: the frames, as values and as bytes.
pub mod AckFrame
pub mod AckBytes
pub mod PathFrame
pub mod Frame
pub mod StreamFrame
pub mod ControlFrame
mod Examples

-- ===== src/Session/Stream.antt =====
-- stream.go: a stream's two directions, over the stream frame sorter and the flow control manager.
pub mod State
pub mod Read
pub mod Rounds
pub mod Delivery
pub mod Runs
mod Examples

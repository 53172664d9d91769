-- ===== src/Session/StreamFrameSorter.antt =====
-- stream_frame_sorter.go: the frames of a stream that wait to be read, and the gaps between them.
pub mod State
pub mod Search
pub mod Push
pub mod Gaps
pub mod Filled
pub mod Inv
pub mod Cuts
pub mod Located
pub mod Queue
pub mod Fills
pub mod Pushed
pub mod Popped

-- ===== src/Ackhandler/Sent.antt =====
-- ackhandler/sent_packet_handler.go: the sending side of a path.
pub mod State
pub mod Acked
pub mod Loss
pub mod Ops
pub mod Flight
pub mod Walk
pub mod Validated
pub mod Inv
pub mod Keeps
pub mod Receive
pub mod Send
pub mod Settled
pub mod Trace
pub mod Timeouts
pub mod Backoff

-- ===== src/Ackhandler.antt =====
-- The package ackhandler: which packets were received, and what happened to those that were sent.
pub mod History
pub mod Received
pub mod Packet
pub mod StopWaiting
pub mod Sent
mod Examples

-- ===== src/Scheduler.antt =====
-- scheduler.go: which path the next packet is sent on. The Go map of the paths is the list of its
-- values in the order that the range statement visits them; the path ids are its keys.
pub mod Paths
pub mod RoundRobin
pub mod LowLatency
pub mod Selection
pub mod Duplicates
mod Examples

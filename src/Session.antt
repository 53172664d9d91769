-- ===== src/Session.antt =====
-- The root package of quic-go: what the session keeps beside the packet handlers.
pub mod PacketNumberGenerator
pub mod StreamsMap
pub mod StreamFramer
pub mod PacketUnpacker
pub mod StreamFrameSorter
pub mod Stream
mod Examples

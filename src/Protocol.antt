-- ===== src/Protocol.antt =====
-- internal/protocol: the types and calculations that every other part uses.
pub mod PacketNumber
mod Examples

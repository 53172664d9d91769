-- ===== src/Congestion.antt =====
-- The package congestion, as far as it is modelled.
pub mod Prr
pub mod HybridSlowStart
mod Examples

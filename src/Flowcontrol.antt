-- ===== src/Flowcontrol.antt =====
-- The package flowcontrol: how much may be sent and received, per stream and for the connection.
pub mod Controller
pub mod Manager
mod Examples

-- ===== src/Ackhandler/Examples.antt =====
-- Concrete runs of ackhandler.
mod Receiving
mod Sending

-- ===== src/Wire.antt =====
-- The wire formats that the sender and the player share.
pub mod PcmDatagram
pub mod Packet

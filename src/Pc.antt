-- ===== src/Pc.antt =====
-- The computer's application, gemacast-pc.
pub mod DeviceAuth
pub mod Registry
pub mod TrustedDevices

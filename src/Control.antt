-- ===== src/Control.antt =====
-- gemacast-core/src/control: who may control the PC.
pub mod Auth
pub mod DeviceAuth

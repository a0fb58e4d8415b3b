-- ===== src/Updater.antt =====
-- gemacast-core/src/updater.
pub mod Retry

-- ===== src/Jitter.antt =====
-- gemacast-core/src/jitter: the player's jitter buffer.
pub mod Buffer
pub mod Flow

-- ===== src/Transport.antt =====
-- The stream transport over USB: length-prefixed frames and the handshake before them.
pub mod Framer
pub mod Handshake

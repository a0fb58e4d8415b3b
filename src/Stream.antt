-- ===== src/Stream.antt =====
-- gemacast-core/src/stream: the sender's and the player's side of a stream.
pub mod SourceIdle
pub mod PacketPacer
pub mod Echo
pub mod PcmAssembly
pub mod CaptureInstance
pub mod CapturePool
pub mod Receiver
pub mod UdpSender
pub mod PlaybackWorker

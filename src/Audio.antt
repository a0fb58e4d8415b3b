-- ===== src/Audio.antt =====
-- The constants of gemacast-core/src/audio/mod.rs, the packet of jitter/types.rs and the errors of
-- domain/error.rs that the wire formats raise. Times are numbers of microseconds; a byte is a
-- number below 256.
use gemacast.Prelude.{ℕ, ◌*◌, List, Bool, false, replicate}

abbrev pub opus_channels : ℕ
opus_channels = 2

abbrev pub opus_frame_size : ℕ
opus_frame_size = 480

abbrev pub opus_frame_samples : ℕ
opus_frame_samples = opus_frame_size * opus_channels

abbrev pub max_opus_packet_size : ℕ
max_opus_packet_size = 8000

abbrev pub seq_num_size : ℕ
seq_num_size = 8

abbrev pub format_flag_size : ℕ
format_flag_size = 1

abbrev pub format_opus : ℕ
format_opus = 0

abbrev pub format_uncompressed : ℕ
format_uncompressed = 1

abbrev pub format_silence : ℕ
format_silence = 2

abbrev pub max_packet_payload : ℕ
max_packet_payload = max_opus_packet_size

-- The two texts with which `PcmDatagram::decode` fails.
pub data Reason : Type 0 where
  wrong_chunk_size unknown_format_or_chunk_index : Reason

pub data HandshakeField : Type 0 where
  device_id_field session_token_field : HandshakeField

pub data ProtocolError : Type 0 where
  unsupported_audio_format : ℕ → ProtocolError
  invalid_pcm_datagram : Reason → ProtocolError
  packet_too_short : (got min : ℕ) → ProtocolError
  packet_length_exceeds_buffer : (declared available : ℕ) → ProtocolError
  packet_payload_too_large : (got max : ℕ) → ProtocolError
  empty_adb_handshake_field : HandshakeField → ProtocolError
  adb_handshake_field_too_long : HandshakeField → (got max : ℕ) → ProtocolError

pub record RawPacket : Type 0 where
  pub seq_num : ℕ
  pub payload_data : List ℕ
  pub payload_len : ℕ
  pub arrival_time : ℕ
  pub is_uncompressed : Bool
  pub is_silence : Bool

-- `[0u8; MAX_PACKET_PAYLOAD]`
unfoldable pub zero_payload : List ℕ
zero_payload = replicate max_packet_payload 0

-- `Instant::now()` is the argument.
unfoldable pub zeroed : ℕ → RawPacket
zeroed now = record {
  seq_num = 0;
  payload_data = zero_payload;
  payload_len = 0;
  arrival_time = now;
  is_uncompressed = false;
  is_silence = false;
}

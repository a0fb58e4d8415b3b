-- ===== src/Wire/Packet.antt =====
-- gemacast-core/src/stream/streamer/encode.rs (a captured frame to a wire packet) and
-- stream/player/packet.rs (a wire packet to the packet that the jitter buffer holds).
pub mod RoundTrip
pub mod Examples
use gemacast.Prelude.{
  ℕ, ◌+◌, ◌-◌, ◌++◌, List, [], ◌∷◌, Bool, ◌||◌, not, Result, ok, err, length, take, slice, get_or,
  copy_from_slice, ltb, ◌==◌, if◌then◌else◌, Option, none, some,
}
use gemacast.Prelude.Bytes.{to_be_bytes, from_be_bytes}
use gemacast.Audio.{
  opus_frame_samples, seq_num_size, format_flag_size, format_opus, format_uncompressed,
  format_silence, max_packet_payload, max_opus_packet_size, ProtocolError, unsupported_audio_format,
  packet_too_short, packet_length_exceeds_buffer, packet_payload_too_large, RawPacket, zero_payload,
}

-- `f32` and the Opus encoder, which the program takes from outside.
pub record Codec : Type 1 where
  pub F32 : Type 0
  pub zero_f32 : F32
  pub add : F32 → F32 → F32
  pub mul : F32 → F32 → F32
  pub div : F32 → F32 → F32
  pub sqrt : F32 → F32
  pub of_usize : ℕ → F32
  pub lt : F32 → F32 → Bool
  -- `SILENCE_RMS_THRESHOLD`
  pub silence_rms_threshold : F32
  -- the four bytes of a sample in memory
  pub to_ne_bytes : F32 → List ℕ
  pub Encoder : Type 0
  -- `encode_float` into a buffer of the given size; `none` is an Opus error
  pub encode_float : Encoder → List F32 → ℕ → Option (List ℕ)

pub data AudioBitrate : Type 0 where
  uncompressed : AudioBitrate
  opus : ℕ → AudioBitrate

pub is_uncompressed_rate : AudioBitrate → Bool
is_uncompressed_rate uncompressed = Bool.true
is_uncompressed_rate (opus bps) = Bool.false

pub data AudioError : Type 0 where
  invalid_frame_length : (got expected : ℕ) → AudioError
  missing_opus_encoder opus_codec_failed : AudioError

module _ (k : Codec) where
  open k use {F32}

  pub sum_squares : F32 → List F32 → F32
  sum_squares acc [] = acc
  sum_squares acc (x ∷ xs) = sum_squares (k.add acc (k.mul x x)) xs

  pub sample_bytes : List F32 → List ℕ
  sample_bytes [] = []
  sample_bytes (x ∷ xs) = k.to_ne_bytes x ++ sample_bytes xs

  pub is_silent_frame : List F32 → Bool
  unfolding sum_squares
  is_silent_frame frame =
      k.lt (k.sqrt (k.div (sum_squares k.zero_f32 frame) (k.of_usize (length frame))))
        k.silence_rms_threshold

  unfoldable pub wire_packet : ℕ → ℕ → List ℕ → List ℕ
  wire_packet seq_num format_flag payload = to_be_bytes 8 seq_num ++ (format_flag ∷ payload)

  pub opus_payload : Option k.Encoder → List F32 → ℕ → Result AudioError (List ℕ)
  opus_payload none frame room = err missing_opus_encoder
  opus_payload (some encoder) frame room = elim (k.encode_float encoder frame room) [
    | none ↦ err opus_codec_failed
    | some bytes ↦ ok bytes
  ]

  abbrev pub opus_packet : ℕ → Result AudioError (List ℕ) → Result AudioError (List ℕ)
  opus_packet seq_num (ok bytes) = ok (wire_packet seq_num format_opus bytes)
  opus_packet seq_num (err e) = err e

  -- The packet that `packet_buf` holds afterwards; `room` is the size of `opus_output`.
  pub encode : List F32 → Option k.Encoder → AudioBitrate → ℕ → ℕ → Result AudioError (List ℕ)
  unfolding is_silent_frame is_uncompressed_rate
  encode frame encoder bitrate seq_num room =
      if not (length frame == opus_frame_samples)
      then err (invalid_frame_length (length frame) opus_frame_samples)
      else if is_silent_frame frame
      then ok (wire_packet seq_num format_silence [])
      else if is_uncompressed_rate bitrate
      then ok (wire_packet seq_num format_uncompressed (sample_bytes frame))
      else opus_packet seq_num (opus_payload encoder frame room)

abbrev pub header_len : ℕ
header_len = seq_num_size + format_flag_size

is_known_format : ℕ → Bool
is_known_format f = f == format_opus || f == format_uncompressed || f == format_silence

-- The packet that `decode` builds when its checks have passed.
parsed_packet : List ℕ → ℕ → ℕ → RawPacket
parsed_packet buffer len now = record {
  seq_num = from_be_bytes (take seq_num_size buffer);
  payload_data = copy_from_slice zero_payload 0 (slice buffer header_len (len - header_len));
  payload_len = len - header_len;
  arrival_time = now;
  is_uncompressed = get_or buffer seq_num_size 0 == format_uncompressed;
  is_silence = get_or buffer seq_num_size 0 == format_silence;
}

-- `Instant::now()` is `now`; the first `len` bytes of `buffer` are the packet.
pub decode : List ℕ → ℕ → ℕ → Result ProtocolError RawPacket
unfolding is_known_format parsed_packet
decode buffer len now =
    if ltb len header_len
    then err (packet_too_short len header_len)
    else if ltb (length buffer) len
    then err (packet_length_exceeds_buffer len (length buffer))
    else if not (is_known_format (get_or buffer seq_num_size 0))
    then err (unsupported_audio_format (get_or buffer seq_num_size 0))
    else if ltb max_packet_payload (len - header_len)
    then err (packet_payload_too_large (len - header_len) max_packet_payload)
    else ok (parsed_packet buffer len now)

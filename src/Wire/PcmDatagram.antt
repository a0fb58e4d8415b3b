-- ===== src/Wire/PcmDatagram.antt =====
-- gemacast-core/src/audio/pcm_datagram.rs: a 10 ms PCM frame as four datagrams.
pub mod RoundTrip
mod Examples
use gemacast.Prelude.{
  ℕ, ◌+◌, ◌*◌, ◌/◌, ◌++◌, List, ◌∷◌, Option, none, some, Result, ok, err, Bool, ◌&&◌, ◌||◌, not,
  length, take, drop, slice, get_or, ltb, leb, ◌==◌, if◌then◌else◌,
}
use gemacast.Prelude.Bytes.{to_be_bytes, from_be_bytes}
use gemacast.Audio.{
  opus_frame_samples, format_uncompressed, ProtocolError, invalid_pcm_datagram, wrong_chunk_size,
  unknown_format_or_chunk_index,
}

abbrev pub format : ℕ
format = 3

abbrev pub chunks : ℕ
chunks = 4

-- `size_of::<f32>()` is 4.
abbrev pub payload_size : ℕ
payload_size = opus_frame_samples * 4 / chunks

abbrev pub header : ℕ
header = 18

abbrev pub size : ℕ
size = header + payload_size

pub record PcmChunk : Type 0 where
  pub sequence : ℕ
  pub generation : ℕ
  pub index : ℕ
  pub payload : List ℕ

-- The three assertions.
pub encode_ready : List ℕ → ℕ → Bool
encode_ready frame chunk =
    length frame == 9 + payload_size * chunks
    && (get_or frame 8 0 == format_uncompressed && ltb chunk chunks)

-- `none` is a failed assertion.
pub encode : List ℕ → ℕ → ℕ → Option (List ℕ)
unfolding encode_ready
encode frame generation chunk =
    if encode_ready frame chunk
    then some (
        take 8 frame
        ++ (format
            ∷ (to_be_bytes 8 generation
                ++ (chunk ∷ slice frame (9 + chunk * payload_size) payload_size))))
    else none

pub decode : List ℕ → Result ProtocolError PcmChunk
decode bytes =
    if not (length bytes == size)
    then err (invalid_pcm_datagram wrong_chunk_size)
    else if not (get_or bytes 8 0 == format) || leb chunks (get_or bytes 17 0)
    then err (invalid_pcm_datagram unknown_format_or_chunk_index)
    else ok (record {
      sequence = from_be_bytes (take 8 bytes);
      generation = from_be_bytes (slice bytes 9 8);
      index = get_or bytes 17 0;
      payload = drop header bytes;
    })

-- ===== src/Wire/Packet/Examples.antt =====
-- The packet theorems at a codec over small numbers, which stand for samples.
use gemacast.Prelude.{
  ℕ, ◌+◌, ◌*◌, ◌/◌, ◌≡◌, List, [], ◌∷◌, ◌++◌, none, ok, not, false, ◌&&◌, arith, ltb, refl, length,
  take, drop, get_or, replicate,
}
use gemacast.Prelude.Bytes.{to_be_bytes, length-to_be_bytes}
use gemacast.Audio.{RawPacket}
use gemacast.Wire.Packet.{
  Codec, uncompressed, encode, decode, is_silent_frame, is_uncompressed_rate, sum_squares,
  wire_packet, sample_bytes,
}
use gemacast.Wire.Packet.RoundTrip.{IsCodec, decode-encode_packet, encode-IsFrame}
use gemacast.Wire.PcmDatagram.RoundTrip.{IsFrame}

abbrev pub whole_numbers : Codec
whole_numbers = record {
  F32 = ℕ;
  zero_f32 = 0;
  add = λ a b. a + b;
  mul = λ a b. a * b;
  div = λ a b. a / b;
  sqrt = λ a. a;
  of_usize = λ n. n;
  lt = ltb;
  silence_rms_threshold = 1;
  to_ne_bytes = λ x. to_be_bytes 4 x;
  Encoder = Unit {0};
  encode_float = λ e frame room. none;
}

pub whole_numbers-IsCodec : IsCodec whole_numbers
whole_numbers-IsCodec = record {
  length_ne_bytes = λ x. length-to_be_bytes 4 x;
  encoded_fits = λ e frame room bytes h. cc;
}

abbrev quiet_frame : List ℕ
quiet_frame = replicate 960 0

quiet_packet : List ℕ
quiet_packet = wire_packet whole_numbers 5 2 []

quiet_encodes : encode whole_numbers quiet_frame none uncompressed 5 8000 ≡ ok quiet_packet
unfolding encode quiet_packet sum_squares replicate
quiet_encodes = refl

decode-encode_packet_example :
    (pkt : RawPacket) × (decode (quiet_packet ++ (0xff ∷ [])) (length quiet_packet) 77 ≡ ok pkt)
    × (pkt.seq_num ≡ 5)
    × (take pkt.payload_len pkt.payload_data ≡ drop 9 quiet_packet)
    × (pkt.is_silence ≡ is_silent_frame whole_numbers quiet_frame)
    × (pkt.is_uncompressed
        ≡ not (is_silent_frame whole_numbers quiet_frame) && is_uncompressed_rate uncompressed)
decode-encode_packet_example =
    decode-encode_packet whole_numbers whole_numbers-IsCodec quiet_frame none uncompressed 5 8000 77
      quiet_packet (0xff ∷ []) quiet_encodes (omega arith) (omega arith)

abbrev pub loud_frame : List ℕ
loud_frame = replicate 960 3

pub loud_packet : List ℕ
loud_packet = wire_packet whole_numbers 6 1 (sample_bytes whole_numbers loud_frame)

pub loud_encodes : encode whole_numbers loud_frame none uncompressed 6 8000 ≡ ok loud_packet
unfolding encode loud_packet sum_squares replicate
loud_encodes = refl

pub loud : is_silent_frame whole_numbers loud_frame ≡ false
unfolding is_silent_frame sum_squares replicate
loud = refl

pub loud_flag : get_or loud_packet 8 0 ≡ 1
unfolding loud_packet wire_packet to_be_bytes get_or
loud_flag = refl

encode-IsFrame_example : IsFrame loud_packet
encode-IsFrame_example =
    encode-IsFrame whole_numbers whole_numbers-IsCodec loud_frame none uncompressed 6 8000
      loud_packet loud_encodes loud_flag

-- ===== src/Stream/Echo/Examples.antt =====
-- Echo packets and an audio packet.
use gemacast.Prelude.{ℕ, ◌+◌, ◌*◌, ◌/◌, none, ltb}
use gemacast.Prelude.Bytes.{to_be_bytes}
use gemacast.Wire.Packet.{Codec}

abbrev whole_numbers : Codec
whole_numbers = record {
  F32 = ℕ;
  zero_f32 = 0;
  add = λ a b. a + b;
  mul = λ a b. a * b;
  div = λ a b. a / b;
  sqrt = λ a. a;
  of_usize = λ n. n;
  lt = ltb;
  silence_rms_threshold = 1;
  to_ne_bytes = λ x. to_be_bytes 4 x;
  Encoder = Unit {0};
  encode_float = λ e frame room. none;
}

-- ===== src/Stream/Echo.antt =====
-- gemacast-core/src/stream/echo.rs: the echo packet with which the phone measures the round trip. The
-- clock is an argument, in microseconds; so is the conversion to milliseconds as an `f32`.
mod Examples
use gemacast.Prelude.{
  ℕ, ◌+◌, ◌-◌, ◌*◌, ◌/◌, ◌%◌, ◌^◌, ◌<◌, ◌≤◌, ◌≡◌, refl, sym, ap, ◌∙◌, List, [], ◌∷◌, ◌++◌, Bool,
  true, false, ◌&&◌, arith, leb, ◌==◌, length, take, drop, slice, length-append, slice_at, get_or,
}
use gemacast.Prelude.Bytes.{
  to_be_bytes, from_be_bytes, length-to_be_bytes, from_be_bytes-to_be_bytes, le_bytes,
}
use gemacast.Prelude.Assoc.{text_eq}
use gemacast.Wire.Packet.{Codec, wire_packet}

abbrev pub magic : List ℕ
magic = 0xf1 ∷ 0x1e ∷ []

abbrev pub echo_packet_len : ℕ
echo_packet_len = 10

pub encode_at : ℕ → List ℕ
encode_at send_micros = magic ++ to_be_bytes 8 send_micros

pub matches : List ℕ → ℕ → Bool
matches buf len =
    len == echo_packet_len && (leb echo_packet_len (length buf) && text_eq (take 2 buf) magic)

-- The argument of the conversion in `round_trip_ms_at`.
pub round_trip_micros : List ℕ → ℕ → ℕ
round_trip_micros buf now_micros = now_micros - from_be_bytes (slice buf 2 8)

pub round_trip_ms_at {ℓ} : {F32 : Type ℓ} → (ℕ → F32) → List ℕ → ℕ → F32
unfolding round_trip_micros
round_trip_ms_at to_ms buf now_micros = to_ms (round_trip_micros buf now_micros)

-- An echo packet, for a send time in 64 bits, is recognised as one, and the round trip that is read
-- from it is the time since its sending.
pub round_trip-encode_at :
    (sent now : ℕ)
    → sent < 256 ^ 8
    → (matches (encode_at sent) (length (encode_at sent)) ≡ true)
      × (round_trip_micros (encode_at sent) now ≡ now - sent)
unfolding matches encode_at round_trip_micros slice drop take text_eq to_be_bytes le_bytes
round_trip-encode_at sent now h = (refl, ap (λ n. now - n) (from_be_bytes-to_be_bytes 8 sent h))

-- No audio packet is taken for an echo packet, while the sequence number, which starts from the
-- milliseconds since the epoch, has not reached 0xf11e * 2 ^ 48.
pub matches-wire_packet :
    (k : Codec) (seq flag : ℕ) (payload : List ℕ) (len : ℕ)
    → seq < 0xf11e * 2 ^ 48
    → matches (wire_packet k seq flag payload) len ≡ false
unfolding matches wire_packet to_be_bytes le_bytes text_eq take
matches-wire_packet k seq flag payload len h = ground arith

-- ===== src/Wire/PcmDatagram/Examples.antt =====
-- The datagram theorems at a frame whose PCM bytes are all 7.
use gemacast.Prelude.{
  ℕ, ◌+◌, ◌*◌, ◌≡◌, List, ◌∷◌, ◌++◌, some, ok, arith, length, take, drop, slice, replicate,
  length-append, length-replicate, get_or_at, refl, get_or,
}
use gemacast.Prelude.Bytes.{to_be_bytes, from_be_bytes, length-to_be_bytes}
use gemacast.Wire.PcmDatagram.{PcmChunk, payload_size, size, encode, decode}
use gemacast.Wire.PcmDatagram.RoundTrip.{IsFrame, decode-encode, slices_cover}

abbrev seven : ℕ
seven = 7

sevens : List ℕ
sevens = to_be_bytes 8 42 ++ (1 ∷ replicate 3840 7)

sevens-IsFrame : IsFrame sevens
unfolding sevens
sevens-IsFrame = record {
  length_eq = omega (
    arith,
    length-append (to_be_bytes 8 42) (1 ∷ replicate 3840 7),
    length-to_be_bytes 8 42,
    length-replicate 3840 seven,
  );
  flag = get_or_at (to_be_bytes 8 42) (replicate 3840 7) 1 0 8 refl (length-to_be_bytes 8 42);
}

decode-encode_example :
    (out : List ℕ) × (encode sevens 123 2 ≡ some out)
    × (length out ≡ size)
    × (decode out
        ≡ ok (record {
          sequence = from_be_bytes (take 8 sevens);
          generation = 123;
          index = 2;
          payload = slice sevens (9 + 2 * payload_size) payload_size;
        }))
decode-encode_example = decode-encode sevens 123 2 sevens-IsFrame (omega arith) (omega arith)

slices_cover_example :
    slice sevens 9 960 ++ (slice sevens 969 960 ++ (slice sevens 1929 960 ++ slice sevens 2889 960))
    ≡ drop 9 sevens
slices_cover_example = slices_cover sevens sevens-IsFrame

small : List ℕ
small = to_be_bytes 8 42 ++ (3 ∷ (to_be_bytes 8 1 ++ (2 ∷ replicate 960 5)))

small_chunk : PcmChunk
small_chunk = record { sequence = 42; generation = 1; index = 2; payload = replicate 960 5 }

decodes : decode small ≡ ok small_chunk
unfolding small small_chunk decode to_be_bytes from_be_bytes replicate take drop slice get_or
decodes = refl

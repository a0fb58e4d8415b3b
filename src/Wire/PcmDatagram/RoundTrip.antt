-- ===== src/Wire/PcmDatagram/RoundTrip.antt =====
-- A frame that is cut into datagrams, and the datagrams decoded.
use mathlib.Core.List.{append_assoc}
use gemacast.Prelude.{
  ℕ, ◌+◌, ◌*◌, ◌^◌, ◌<◌, ◌≡◌, refl, sym, ◌∙◌, List, [], ◌∷◌, ◌++◌, some, ok, arith, length, take,
  drop, get_or, slice, length-take, length-drop, length-append, length-slice, get_or_at, take_at,
  drop_at, slice_at, slice-append_slice, take_all, lt→ltb, lt→leb_false,
}
use gemacast.Prelude.Bytes.{
  to_be_bytes, from_be_bytes, length-to_be_bytes, from_be_bytes-to_be_bytes,
}
use gemacast.Audio.{format_uncompressed}
use gemacast.Wire.PcmDatagram.{PcmChunk, chunks, payload_size, size, header, format, encode, decode}

-- What the assertions of `encode` say of a frame and a chunk number.
pub record IsFrame (frame : List ℕ) : Type 0 where
  pub length_eq : length frame ≡ 9 + payload_size * chunks
  pub flag : get_or frame 8 0 ≡ format_uncompressed

-- The datagram that `encode` writes.
pub datagram : List ℕ → ℕ → ℕ → List ℕ
datagram frame generation chunk =
    take 8 frame
    ++ (format
        ∷ (to_be_bytes 8 generation
            ++ (chunk ∷ slice frame (9 + chunk * payload_size) payload_size)))

pub encode-datagram :
    (frame : List ℕ) (generation chunk : ℕ)
    → IsFrame frame
    → chunk < chunks
    → encode frame generation chunk ≡ some (datagram frame generation chunk)
unfolding encode datagram
encode-datagram frame generation chunk f h = rw (f.length_eq, f.flag, lt→ltb chunk chunks h)

decode_ok :
    (bytes : List ℕ) (c : ℕ)
    → length bytes ≡ size
    → get_or bytes 8 0 ≡ format
    → get_or bytes 17 0 ≡ c
    → c < chunks
    → decode bytes
      ≡ ok (record {
        sequence = from_be_bytes (take 8 bytes);
        generation = from_be_bytes (slice bytes 9 8);
        index = c;
        payload = drop header bytes;
      })
unfolding decode
decode_ok bytes c h f i lt = rw (h, f, i, lt→leb_false c chunks lt)

-- Bytes that are laid out in the five parts of a datagram.
module _ (seq gen payload : List ℕ) (c : ℕ) (hs : length seq ≡ 8) (hg : length gen ≡ 8)
    (hp : length payload ≡ payload_size) where
  abbrev whole : List ℕ
  whole = seq ++ (format ∷ (gen ++ (c ∷ payload)))

  abbrev front : List ℕ
  front = seq ++ (format ∷ gen)

  whole-front : whole ≡ front ++ (c ∷ payload)
  whole-front = sym (append_assoc seq (format ∷ gen) (c ∷ payload))

  length-front : length front ≡ 17
  length-front = omega (arith, length-append seq (format ∷ gen), hs, hg)

  length-whole : length whole ≡ size
  length-whole = omega (
    arith,
    length-append seq (format ∷ (gen ++ (c ∷ payload))),
    length-append gen (c ∷ payload),
    hs,
    hg,
    hp,
  )

  payload_part : drop header whole ≡ payload
  payload_part =
      drop_at (front ++ (c ∷ [])) payload header
        (whole-front ∙ sym (append_assoc front (c ∷ []) payload))
        (omega (arith, length-append front (c ∷ []), length-front))

  gen_part : slice whole 9 8 ≡ gen
  gen_part =
      slice_at (seq ++ (format ∷ [])) gen (c ∷ payload) 9 8
        (sym (append_assoc seq (format ∷ []) (gen ++ (c ∷ payload))))
        (omega (arith, length-append seq (format ∷ []), hs)) hg

  decode_parts :
      c < chunks
      → decode whole
        ≡ ok (record {
          sequence = from_be_bytes seq;
          generation = from_be_bytes gen;
          index = c;
          payload = payload;
        })
  decode_parts lt =
      decode_ok whole c length-whole (get_or_at seq _ format 0 8 refl hs)
        (get_or_at front payload c 0 17 whole-front length-front) lt
      ∙ (rw (take_at {l = whole} seq _ 8 refl hs, gen_part, payload_part) refl)

-- A datagram that `encode` writes decodes to the frame's sequence number, the sender's generation,
-- the chunk number and that chunk's 960 bytes of the frame. `encode` does write one for each chunk
-- number below four of a well-formed frame.
pub decode-encode :
    (frame : List ℕ) (generation chunk : ℕ)
    → IsFrame frame
    → generation < 256 ^ 8
    → chunk < chunks
    → (out : List ℕ) × (encode frame generation chunk ≡ some out)
      × (length out ≡ size)
      × (decode out
          ≡ ok (record {
            sequence = from_be_bytes (take 8 frame);
            generation = generation;
            index = chunk;
            payload = slice frame (9 + chunk * payload_size) payload_size;
          }))
unfolding datagram
decode-encode frame generation chunk f hg hc = (
  datagram frame generation chunk,
  encode-datagram frame generation chunk f hc,
  length-whole seq gen part chunk hs hgen hp,
  decode_parts seq gen part chunk hs hgen hp hc
      ∙ rw (from_be_bytes-to_be_bytes 8 generation hg) refl,
)
  where
    seq : List ℕ
    seq = take 8 frame

    gen : List ℕ
    gen = to_be_bytes 8 generation

    part : List ℕ
    part = slice frame (9 + chunk * payload_size) payload_size

    hs : length seq ≡ 8
    hs = length-take 8 frame (omega (arith, f.length_eq))

    hgen : length gen ≡ 8
    hgen = length-to_be_bytes 8 generation

    hp : length part ≡ payload_size
    hp = length-slice frame (9 + chunk * payload_size) payload_size (omega (arith, f.length_eq, hc))

-- The four chunks of a well-formed frame are its PCM bytes, in order.
pub slices_cover :
    (frame : List ℕ)
    → IsFrame frame
    → slice frame 9 960 ++ (slice frame 969 960 ++ (slice frame 1929 960 ++ slice frame 2889 960))
      ≡ drop 9 frame
slices_cover frame f =
    rw
      (
        slice-append_slice frame 1929 960 960 2889 refl,
        slice-append_slice frame 969 960 1920 1929 refl,
        slice-append_slice frame 9 960 2880 969 refl,
      )
      (unfold slice in take_all (drop 9 frame) (omega (arith, length-drop 9 frame, f.length_eq)))

-- What the reassembly's indexing and copying need.
pub record IsChunk (c : PcmChunk) : Type 0 where
  pub index_lt : c.index < chunks
  pub payload_length : length c.payload ≡ payload_size

-- Whatever the bytes, an accepted datagram has a chunk number below four and a payload of exactly
-- 960 bytes.
pub decode-IsChunk : (bytes : List ℕ) (c : PcmChunk) → decode bytes ≡ ok c → IsChunk c
unfolding decode
decode-IsChunk bytes c e = ground (arith, length-drop header bytes)

-- ===== src/Wire/Packet/RoundTrip.antt =====
-- A captured frame on its way through the wire packet, and into PCM datagrams.
use mathlib.Core.List.{append_assoc}
use gemacast.Prelude.{
  ℕ, ◌+◌, ◌-◌, ◌*◌, ◌^◌, ◌≤◌, ◌<◌, ◌≡◌, not, ◌&&◌, subst, ◌↔◌, refl, sym, ap, ◌∙◌, List, [], ◌∷◌,
  ◌++◌, Option, none, some, Result, ok, err, arith, true, false, Bool-cases, inl, inr, length, take,
  drop, get_or, slice, copy_from_slice, length-append, get_or_at, take_at, drop_at, slice_at,
  take-append, ◌==◌, ==→eq, length-replicate,
}
use gemacast.Prelude.Bytes.{
  to_be_bytes, from_be_bytes, length-to_be_bytes, from_be_bytes-to_be_bytes,
}
use gemacast.Audio.{
  RawPacket, zero_payload, max_packet_payload, format_opus, format_uncompressed, format_silence,
  opus_frame_samples,
}
use gemacast.Wire.Packet.{
  Codec, AudioBitrate, is_uncompressed_rate, is_silent_frame, sample_bytes, wire_packet,
  opus_payload, opus_packet, AudioError, encode, header_len, is_known_format, parsed_packet, decode,
}
use gemacast.Wire.PcmDatagram.RoundTrip.{IsFrame}

-- What the program relies on: a sample is four bytes, and the Opus encoder stays in its buffer.
pub record IsCodec (k : Codec) : Type 0 where
  pub length_ne_bytes : (x : k.F32) → length (k.to_ne_bytes x) ≡ 4
  pub encoded_fits :
      (e : k.Encoder) (frame : List k.F32) (room : ℕ) (bytes : List ℕ)
      → k.encode_float e frame room ≡ some bytes
      → length bytes ≤ room

length-zero_payload : length zero_payload ≡ max_packet_payload
unfolding zero_payload
length-zero_payload = length-replicate 8000 0

take-copy_from_slice : (dst src : List ℕ) → take (length src) (copy_from_slice dst 0 src) ≡ src
unfolding copy_from_slice take
take-copy_from_slice dst src = take-append src (drop (0 + length src) dst) refl

-- A packet that comes with a known flag and a payload that fits is accepted with its parts, also
-- in a longer receive buffer.
pub record IsReceived (pkt : RawPacket) (seq flag : ℕ) (payload : List ℕ) (now : ℕ) : Type 0 where
  pub seq_num : pkt.seq_num ≡ seq
  pub payload_len : pkt.payload_len ≡ length payload
  pub bytes : take pkt.payload_len pkt.payload_data ≡ payload
  pub arrival : pkt.arrival_time ≡ now
  pub silence : pkt.is_silence ≡ (flag == format_silence)
  pub uncompressed : pkt.is_uncompressed ≡ (flag == format_uncompressed)

decode_ok :
    (buffer payload : List ℕ) (seq flag len now : ℕ)
    → header_len + length payload ≡ len
    → len ≤ length buffer
    → length payload ≤ max_packet_payload
    → flag ≤ 2
    → get_or buffer 8 0 ≡ flag
    → from_be_bytes (take 8 buffer) ≡ seq
    → slice buffer 9 (length payload) ≡ payload
    → (pkt : RawPacket) × (decode buffer len now ≡ ok pkt) × IsReceived pkt seq flag payload now
unfolding decode is_known_format
decode_ok buffer payload seq flag len now el fits room known ef es ep = (
  record {
    seq_num = seq;
    payload_data = copy_from_slice zero_payload 0 payload;
    payload_len = length payload;
    arrival_time = now;
    is_uncompressed = flag == format_uncompressed;
    is_silence = flag == format_silence;
  },
  rw (ef, es, plen, ep) (ground arith),
  record {
    seq_num = refl;
    payload_len = refl;
    bytes = take-copy_from_slice zero_payload payload;
    arrival = refl;
    silence = refl;
    uncompressed = refl;
  },
)
  where
    plen : len - header_len ≡ length payload
    plen = omega arith

-- A wire packet, followed by whatever the receive buffer held before.
pub decode-wire_packet :
    (k : Codec) (seq flag now : ℕ) (payload rest : List ℕ)
    → seq < 256 ^ 8
    → flag ≤ 2
    → length payload ≤ max_packet_payload
    → (pkt : RawPacket) × (decode
          (wire_packet k seq flag payload ++ rest)
          (length (wire_packet k seq flag payload))
          now
        ≡ ok pkt)
      × IsReceived pkt seq flag payload now
unfolding wire_packet
decode-wire_packet k seq flag now payload rest hs hf hp =
    decode_ok buffer payload seq flag _ now (omega (arith, packet_length))
      (omega (arith, length-append (to_be_bytes 8 seq ++ (flag ∷ payload)) rest)) hp hf
      (get_or_at (to_be_bytes 8 seq) (payload ++ rest) flag 0 8 shape head_length)
      (ap from_be_bytes (take_at (to_be_bytes 8 seq) (flag ∷ (payload ++ rest)) 8 shape head_length)
        ∙ from_be_bytes-to_be_bytes 8 seq hs)
      (slice_at (to_be_bytes 8 seq ++ (flag ∷ [])) payload rest 9 (length payload)
        (shape ∙ sym (append_assoc (to_be_bytes 8 seq) (flag ∷ []) (payload ++ rest)))
        (omega (arith, length-append (to_be_bytes 8 seq) (flag ∷ []), head_length)) refl)
  where
    buffer : List ℕ
    buffer = (to_be_bytes 8 seq ++ (flag ∷ payload)) ++ rest

    shape : buffer ≡ to_be_bytes 8 seq ++ (flag ∷ (payload ++ rest))
    shape = append_assoc (to_be_bytes 8 seq) (flag ∷ payload) rest

    head_length : length (to_be_bytes 8 seq) ≡ 8
    head_length = length-to_be_bytes 8 seq

    packet_length : length (to_be_bytes 8 seq ++ (flag ∷ payload)) ≡ 9 + length payload
    packet_length = omega (arith, length-append (to_be_bytes 8 seq) (flag ∷ payload), head_length)

module _ (k : Codec) (valid : IsCodec k) where
  length-sample_bytes : (xs : List k.F32) → length (sample_bytes k xs) ≡ length xs * 4
  unfolding sample_bytes
  length-sample_bytes [] = omega arith
  length-sample_bytes (x ∷ xs) = omega (
    arith,
    length-append (k.to_ne_bytes x) (sample_bytes k xs),
    valid.length_ne_bytes x,
    length-sample_bytes xs,
  )

  opus_payload-le :
      (e : Option k.Encoder) (frame : List k.F32) (room : ℕ) (bytes : List ℕ)
      → opus_payload k e frame room ≡ ok bytes
      → length bytes ≤ room
  unfolding opus_payload
  opus_payload-le none frame room bytes h = cc
  opus_payload-le (some e) frame room bytes h = valid.encoded_fits e frame room bytes (ground arith)

  -- The payload that goes into a packet, by the flag of the packet.
  pub data Carries (frame : List k.F32) (rate : AudioBitrate) (room : ℕ) : ℕ → List ℕ → Type 0 where
    silent : is_silent_frame k frame ≡ true → Carries frame rate room format_silence []
    raw :
        is_silent_frame k frame ≡ false
        → is_uncompressed_rate rate ≡ true
        → Carries frame rate room format_uncompressed (sample_bytes k frame)
    compressed :
        {bytes : List ℕ}
        → is_silent_frame k frame ≡ false
        → is_uncompressed_rate rate ≡ false
        → length bytes ≤ room
        → Carries frame rate room format_opus bytes

  abbrev Written : List k.F32 → AudioBitrate → ℕ → ℕ → List ℕ → Type 0
  Written frame rate seq room p =
      (length frame ≡ opus_frame_samples)
      × (flag : ℕ) × (payload : List ℕ) × (p ≡ wire_packet k seq flag payload)
      × Carries frame rate room flag payload

  opus_packet-Written :
      (frame : List k.F32) (e : Option k.Encoder) (rate : AudioBitrate) (seq room : ℕ) (p : List ℕ)
      (r : Result AudioError (List ℕ))
      → length frame ≡ opus_frame_samples
      → is_silent_frame k frame ≡ false
      → is_uncompressed_rate rate ≡ false
      → opus_payload k e frame room ≡ r
      → opus_packet k seq r ≡ ok p
      → Written frame rate seq room p
  opus_packet-Written frame e rate seq room p (err x) hl hs hr hp h = cc
  opus_packet-Written frame e rate seq room p (ok bytes) hl hs hr hp h = (
    hl,
    format_opus,
    bytes,
    ground arith,
    compressed hs hr (opus_payload-le e frame room bytes hp),
  )

  -- What a successful `encode` has written.
  pub encode-Carries :
      (frame : List k.F32) (e : Option k.Encoder) (rate : AudioBitrate) (seq room : ℕ) (p : List ℕ)
      → encode k frame e rate seq room ≡ ok p
      → Written frame rate seq room p
  unfolding encode
  encode-Carries frame e rate seq room p h =
      elim (Bool-cases (length frame == opus_frame_samples)) [
        | inr bad ↦ cc (rw bad at h)
        | inl good ↦ elim (Bool-cases (is_silent_frame k frame)) [
          | inl quiet ↦ (==→eq _ _ good, format_silence, [], ground arith, silent quiet)
          | inr loud ↦ elim (Bool-cases (is_uncompressed_rate rate)) [
            | inl pcm ↦ (
              ==→eq _ _ good,
              format_uncompressed,
              sample_bytes k frame,
              ground arith,
              raw loud pcm,
            )
            | inr opus ↦
                opus_packet-Written frame e rate seq room p (opus_payload k e frame room)
                  (==→eq _ _ good) loud opus refl (ground arith)
          ]
        ]
      ]

  pub is_silence_flag :
      (frame : List k.F32) (rate : AudioBitrate) {room flag : ℕ} {payload : List ℕ}
      → Carries frame rate room flag payload
      → (flag ≤ 2)
        × ((flag == format_silence) ≡ is_silent_frame k frame)
        × ((flag == format_uncompressed)
            ≡ not (is_silent_frame k frame) && is_uncompressed_rate rate)
  is_silence_flag frame rate (silent q) = (omega arith, sym q, rw q refl)
  is_silence_flag frame rate (raw q u) = (omega arith, sym q, rw (q, u) refl)
  is_silence_flag frame rate (compressed q u h) = (omega arith, sym q, rw (q, u) refl)

  payload_fits :
      (frame : List k.F32) (rate : AudioBitrate) {room flag : ℕ} {payload : List ℕ}
      → length frame ≡ opus_frame_samples
      → room ≤ max_packet_payload
      → Carries frame rate room flag payload
      → length payload ≤ max_packet_payload
  payload_fits frame rate hl hr (silent q) = omega arith
  payload_fits frame rate hl hr (raw q u) = omega (arith, length-sample_bytes frame)
  payload_fits frame rate hl hr (compressed q u h) = omega arith

  drop-wire_packet :
      (seq flag : ℕ) (payload : List ℕ) → drop 9 (wire_packet k seq flag payload) ≡ payload
  unfolding wire_packet
  drop-wire_packet seq flag payload =
      drop_at (to_be_bytes 8 seq ++ (flag ∷ [])) payload 9
        (sym (append_assoc (to_be_bytes 8 seq) (flag ∷ []) payload))
        (omega (arith, length-append (to_be_bytes 8 seq) (flag ∷ []), length-to_be_bytes 8 seq))

  -- Every packet that the sender's encoder writes, followed by any rest of the receive buffer, is
  -- accepted by the player's decoder, with the sequence number, the payload bytes after the
  -- nine-byte header, the silence mark exactly for a silent frame and the PCM mark exactly for a
  -- frame that is not silent at the uncompressed rate. The codec is assumed to write four bytes for
  -- a sample and to stay within its buffer.
  pub decode-encode_packet :
      (frame : List k.F32) (e : Option k.Encoder) (rate : AudioBitrate) (seq room now : ℕ)
      (p rest : List ℕ)
      → encode k frame e rate seq room ≡ ok p
      → seq < 256 ^ 8
      → room ≤ max_packet_payload
      → (pkt : RawPacket) × (decode (p ++ rest) (length p) now ≡ ok pkt)
        × (pkt.seq_num ≡ seq)
        × (take pkt.payload_len pkt.payload_data ≡ drop 9 p)
        × (pkt.is_silence ≡ is_silent_frame k frame)
        × (pkt.is_uncompressed ≡ not (is_silent_frame k frame) && is_uncompressed_rate rate)
  decode-encode_packet frame e rate seq room now p rest h hs hr =
      let (hl, flag, payload, ep, c) = encode-Carries frame e rate seq room p h in
      let (known, quiet, pcm) = is_silence_flag frame rate c in
      let (pkt, e, got) =
        decode-wire_packet k seq flag now payload rest hs known (payload_fits frame rate hl hr c) in
      (
        pkt,
        subst (λ q. decode (q ++ rest) (length q) now ≡ ok pkt) (sym ep) e,
        got.seq_num,
        got.bytes ∙ sym (ap (drop 9) ep ∙ drop-wire_packet seq flag payload),
        got.silence ∙ quiet,
        got.uncompressed ∙ pcm,
      )

  pub flag_of :
      (seq flag : ℕ) (payload : List ℕ) → get_or (wire_packet k seq flag payload) 8 0 ≡ flag
  unfolding wire_packet
  flag_of seq flag payload =
      get_or_at (to_be_bytes 8 seq) payload flag 0 8 refl (length-to_be_bytes 8 seq)

  length-wire_packet :
      (seq flag : ℕ) (payload : List ℕ)
      → length (wire_packet k seq flag payload) ≡ 9 + length payload
  unfolding wire_packet
  length-wire_packet seq flag payload =
      omega (arith, length-append (to_be_bytes 8 seq) (flag ∷ payload), length-to_be_bytes 8 seq)

  raw_length :
      (frame : List k.F32) (rate : AudioBitrate) {room flag : ℕ} {payload : List ℕ}
      → length frame ≡ opus_frame_samples
      → flag ≡ format_uncompressed
      → Carries frame rate room flag payload
      → length payload ≡ 3840
  raw_length frame rate hl hf (silent q) = absurd (omega arith)
  raw_length frame rate hl hf (raw q u) = omega (arith, length-sample_bytes frame)
  raw_length frame rate hl hf (compressed q u h) = absurd (omega arith)

  -- A packet that the encoder marks as PCM meets the assertions with which the UDP sender cuts it
  -- into datagrams, so that they never fail.
  pub encode-IsFrame :
      (frame : List k.F32) (e : Option k.Encoder) (rate : AudioBitrate) (seq room : ℕ) (p : List ℕ)
      → encode k frame e rate seq room ≡ ok p
      → get_or p 8 0 ≡ format_uncompressed
      → IsFrame p
  encode-IsFrame frame e rate seq room p h hf =
      let (hl, flag, payload, ep, c) = encode-Carries frame e rate seq room p h in
      let flag_eq : flag ≡ format_uncompressed =
        sym (ap (λ q. get_or q 8 0) ep ∙ flag_of seq flag payload) ∙ hf in
      record {
        length_eq =
            ap length ep
            ∙ omega
                (arith, length-wire_packet seq flag payload, raw_length frame rate hl flag_eq c);
        flag = hf;
      }

-- `decode` accepts exactly the packets with a header, not longer than the buffer, with one of the
-- three format flags and a payload that fits the packet.
pub decode_accepts_iff :
    (buffer : List ℕ) (len now : ℕ)
    → ((pkt : RawPacket) × (decode buffer len now ≡ ok pkt))
      ↔ (9 ≤ len) × (len ≤ length buffer) × (get_or buffer 8 0 ≤ 2) × (len - 9 ≤ 8000)
unfolding decode is_known_format
decode_accepts_iff buffer len now =
    (λ (pkt, e). ground arith, λ (a, b, c, d). (parsed_packet buffer len now, ground arith))

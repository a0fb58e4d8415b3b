-- ===== src/Stream/UdpSender/Arrival.antt =====
-- A frame that a sender sends as four datagrams, at the reassembly of the player.
use gemacast.Prelude.{
  ℕ, ◌^◌, ◌-◌, ◌<◌, ◌≡◌, refl, List, [], ◌∷◌, some, none, Option, Result, suc, ◌+◌, true, arith,
  length, take, drop, slice, ◌++◌, slice-append_slice, length-slice, ok, ◌*◌, ap, ◌∙◌, sym, subst,
}
use gemacast.Audio.{RawPacket, ProtocolError}
use gemacast.Wire.Packet.{Codec}
use gemacast.Wire.PcmDatagram.{
  PcmChunk, size, payload_size, encode as encode_datagram, decode as decode_datagram,
}
use gemacast.Wire.PcmDatagram.RoundTrip.{IsFrame, IsChunk, decode-encode, slices_cover}
use gemacast.Stream.PcmAssembly.{PcmAssembly, new as new_assembly}
use gemacast.Stream.PcmAssembly.Completion.{chunk_of, push-completes}
use gemacast.Stream.PcmAssembly.Provenance.{Event, pushes, after, IsReleased, push-IsReleased}
use gemacast.Prelude.Bytes.{from_be_bytes}
use gemacast.Stream.Receiver.{push_decoded}
use gemacast.Stream.UdpSender.{
  SendCounters, Answer, taken, Datagram, Sender, Sent, send_chunks, counted, then_more,
}

-- A datagram at the player.
abbrev pub arrive : PcmAssembly → Datagram → ℕ → PcmAssembly × Option RawPacket
arrive a d t = push_decoded a (decode_datagram d.content) t

abbrev pub all_taken : List Answer
all_taken = taken size ∷ taken size ∷ taken size ∷ taken size ∷ []

-- The packet has the frame's number and its audio.
abbrev pub IsWhole : List ℕ → RawPacket → Type 0
IsWhole frame p =
    (p.seq_num ≡ from_be_bytes (take 8 frame))
    × (p.is_uncompressed ≡ true)
    × (take p.payload_len p.payload_data ≡ drop 9 frame)

abbrev Read : Type 0
Read = Result ProtocolError PcmChunk

abbrev Completes : List ℕ → ℕ → ℕ → ℕ → ℕ → Read → Read → Read → Read → Type 0
Completes frame t0 t1 t2 t3 r0 r1 r2 r3 =
    let a1 = push_decoded new_assembly r0 t0 in
    let a2 = push_decoded a1.0 r1 t1 in
    let a3 = push_decoded a2.0 r2 t2 in
    let a4 = push_decoded a3.0 r3 t3 in
    (a1.1 ≡ none)
    × (a2.1 ≡ none)
    × (a3.1 ≡ none)
    × ((p : RawPacket) × (a4.1 ≡ some p) × IsWhole frame p)

four_slices :
    (xs : List ℕ)
    → slice xs 0 960 ++ (slice xs 960 960 ++ (slice xs 1920 960 ++ slice xs 2880 960))
      ≡ take 3840 xs
unfolding slice drop
four_slices xs =
    rw
      (
        slice-append_slice xs 1920 960 960 2880 refl,
        slice-append_slice xs 960 960 1920 1920 refl,
        slice-append_slice xs 0 960 2880 960 refl,
      )
      refl

module _ (frame : List ℕ) (g : ℕ) (f : IsFrame frame) where
  abbrev part : ℕ → PcmChunk
  part i =
      chunk_of (from_be_bytes (take 8 frame)) g i (slice frame (9 + i * payload_size) payload_size)

  abbrev IsCut : PcmChunk → Type 0
  IsCut c =
      (c.sequence ≡ from_be_bytes (take 8 frame))
      × (c.payload ≡ slice frame (9 + c.index * payload_size) payload_size)

  part-IsChunk : (i : ℕ) → i < 4 → IsChunk (part i)
  part-IsChunk i h = record {
    index_lt = h;
    payload_length =
        length-slice frame (9 + i * payload_size) payload_size (omega (arith, f.length_eq));
  }

  quarter :
      (c : PcmChunk) (now : ℕ) (p : RawPacket) (i : ℕ)
      → i < 4
      → IsReleased IsCut c now p
      → slice p.payload_data (i * 960) 960 ≡ slice frame (9 + i * 960) 960
  quarter c now p i h r = (r.parts i h).1

  released-IsWhole :
      (c : PcmChunk) (now : ℕ) (p : RawPacket)
      → c.sequence ≡ from_be_bytes (take 8 frame)
      → IsReleased IsCut c now p
      → IsWhole frame p
  released-IsWhole c now p same r = (
    r.seq_num_eq ∙ same,
    r.raw,
    ap (λ n. take n p.payload_data) r.whole
        ∙ sym (four_slices p.payload_data)
        ∙ (λ i.
            quarter c now p 0 (omega arith) r i
            ++ (quarter c now p 1 (omega arith) r i
                ++ (quarter c now p 2 (omega arith) r i ++ quarter c now p 3 (omega arith) r i)))
        ∙ slices_cover frame f,
  )

  parts-Completes :
      (t0 t1 t2 t3 : ℕ)
      → (t1 - t0 < 100_000) × (t2 - t0 < 100_000) × (t3 - t0 < 100_000)
      → Completes frame t0 t1 t2 t3 (ok (part 0)) (ok (part 1)) (ok (part 2)) (ok (part 3))
  unfolding after
  parts-Completes t0 t1 t2 t3 late =
      let (n1, n2, n3, (p, e)) =
        push-completes _ g 0 1 2 3 _ _ _ _ t0 t1 t2 t3
          (omega arith, omega arith, omega arith, omega arith)
          (ground arith, ground arith, ground arith, ground arith, ground arith, ground arith)
          late in
      let earlier : List Event =
        pushes (part 0) t0 ∷ pushes (part 1) t1 ∷ pushes (part 2) t2 ∷ [] in
      let released : IsReleased IsCut (part 3) t3 p =
        push-IsReleased IsCut earlier (part 3) t3 p
          (
            (refl, refl),
            part-IsChunk 0 (omega arith),
            (
              (refl, refl),
              part-IsChunk 1 (omega arith),
              ((refl, refl), part-IsChunk 2 (omega arith), tt),
            ),
          )
          (refl, refl) (part-IsChunk 3 (omega arith)) e in
      (n1, n2, n3, (p, e, released-IsWhole (part 3) t3 p refl released))

module _ (k : Codec) where
  abbrev to_phone : Sender k → List ℕ → Datagram
  to_phone s o = record { to = s.target; content = o }

  abbrev went : SendCounters → SendCounters
  went c = (counted k c size (taken size)).0

  sends_next :
      (left i : ℕ) (s : Sender k) (c : SendCounters) (o : List ℕ) (answers : List Answer)
      → encode_datagram s.packet s.generation i ≡ some o
      → length o ≡ size
      → send_chunks k (suc left) i s c (taken size ∷ answers)
        ≡ then_more k (to_phone s o) (send_chunks k left (i + 1) s (went c) answers)
  unfolding send_chunks
  sends_next left i s c o answers e l = rw (e, l, send_chunks) refl

  -- A frame that is sent in chunks arrives. If the socket takes its four datagrams, the frame counts as
  -- complete, and a new reassembly of the player that gets them in this order in less than 100 ms
  -- from the first to each of the others gives nothing for the first three and for the fourth a
  -- packet of PCM with the frame's sequence number, whose payload is all the audio of the frame.
  pub send_chunks-arrive :
      (s : Sender k) (c : SendCounters) (t0 t1 t2 t3 : ℕ)
      → IsFrame s.packet
      → s.generation < 256 ^ 8
      → (t1 - t0 < 100_000) × (t2 - t0 < 100_000) × (t3 - t0 < 100_000)
      → let r = send_chunks k 4 0 s c all_taken in
        (r.complete ≡ true)
        × (d0 : Datagram) × (d1 : Datagram) × (d2 : Datagram) × (d3 : Datagram) × (r.datagrams
            ≡ d0 ∷ d1 ∷ d2 ∷ d3 ∷ [])
        × (let a1 = arrive new_assembly d0 t0 in
            let a2 = arrive a1.0 d1 t1 in
            let a3 = arrive a2.0 d2 t2 in
            let a4 = arrive a3.0 d3 t3 in
            (a1.1 ≡ none)
            × (a2.1 ≡ none)
            × (a3.1 ≡ none)
            × ((p : RawPacket) × (a4.1 ≡ some p) × IsWhole s.packet p))
  unfolding send_chunks
  send_chunks-arrive s c t0 t1 t2 t3 f hg late =
      let (o0, e0, l0, g0) = decode-encode s.packet s.generation 0 f hg (omega arith) in
      let (o1, e1, l1, g1) = decode-encode s.packet s.generation 1 f hg (omega arith) in
      let (o2, e2, l2, g2) = decode-encode s.packet s.generation 2 f hg (omega arith) in
      let (o3, e3, l3, g3) = decode-encode s.packet s.generation 3 f hg (omega arith) in
      let sent =
        sends_next 3 0 s c o0 (taken size ∷ taken size ∷ taken size ∷ []) e0 l0
        ∙ ap (λ r. then_more k (to_phone s o0) r)
            (sends_next 2 1 s (went c) o1 (taken size ∷ taken size ∷ []) e1 l1
              ∙ ap (λ r. then_more k (to_phone s o1) r)
                  (sends_next 1 2 s (went (went c)) o2 (taken size ∷ []) e2 l2
                    ∙ ap (λ r. then_more k (to_phone s o2) r)
                        (sends_next 0 3 s (went (went (went c))) o3 [] e3 l3))) in
      (
        ap (λ (r : Sent k). r.complete) sent,
        to_phone s o0,
        to_phone s o1,
        to_phone s o2,
        to_phone s o3,
        ap (λ (r : Sent k). r.datagrams) sent,
        subst (λ (q : Read × Read × Read × Read). Completes s.packet t0 t1 t2 t3 q.0 q.1 q.2 q.3)
            (λ i. (sym g0 i, sym g1 i, sym g2 i, sym g3 i))
            (parts-Completes s.packet s.generation f t0 t1 t2 t3 late),
      )

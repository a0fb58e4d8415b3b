-- ===== src/Stream/PcmAssembly/Examples.antt =====
-- A frame whose four chunks arrive out of order, with a chunk of the next frame between them.
use gemacast.Prelude.{
  ℕ, ◌<◌, ◌≡◌, refl, List, [], ◌∷◌, ◌++◌, some, none, true, arith, take, drop, replicate, get_or,
  set, copy_from_slice, length-replicate,
}
use gemacast.Audio.{RawPacket, zeroed, zero_payload}
use gemacast.Wire.PcmDatagram.{PcmChunk}
use gemacast.Wire.PcmDatagram.RoundTrip.{IsChunk}
use gemacast.Stream.PcmAssembly.{
  new, push, expire, expire_slots, expires, start_generation, default_slots, push_current, claim,
  fresh_slot, fill_slot, fill, with_chunk,
}
use gemacast.Stream.PcmAssembly.Completion.{chunk_of, push-completes}
use gemacast.Stream.PcmAssembly.Provenance.{
  Event, pushes, expires_at, after, AllSent, IsReleased, push-IsReleased,
}

-- The payload of the chunk numbered `i` consists of `i`s.
abbrev chunk : ℕ → ℕ → PcmChunk
chunk sequence i = record {
  sequence = sequence;
  generation = 5;
  index = i;
  payload = replicate 960 i;
}

abbrev IsPlain : PcmChunk → Type 0
IsPlain c = c.payload ≡ replicate 960 c.index

abbrev arrivals : List Event
arrivals =
    pushes (chunk 42 3) 10
    ∷ pushes (chunk 42 0) 11
    ∷ pushes (chunk 43 1) 12
    ∷ pushes (chunk 42 0) 13
    ∷ pushes (chunk 42 2) 14
    ∷ expires_at 15
    ∷ []

chunk-IsChunk : (sequence i : ℕ) → i < 4 → IsChunk (chunk sequence i)
chunk-IsChunk sequence i h = record { index_lt = h; payload_length = length-replicate 960 i }

arrivals-AllSent : AllSent IsPlain arrivals
arrivals-AllSent = (
  refl,
  chunk-IsChunk 42 3 (omega arith),
  (
    refl,
    chunk-IsChunk 42 0 (omega arith),
    (
      refl,
      chunk-IsChunk 43 1 (omega arith),
      (refl, chunk-IsChunk 42 0 (omega arith), (refl, chunk-IsChunk 42 2 (omega arith), tt)),
    ),
  ),
)

frame : RawPacket
frame = record (zeroed 16) {
  seq_num = 42;
  is_uncompressed = true;
  payload_len = 3840;
  payload_data =
      replicate 960 0
      ++ (replicate 960 1 ++ (replicate 960 2 ++ (replicate 960 3 ++ replicate 4160 0)));
}

releases_frame : (push (after new arrivals) (chunk 42 1) 16).1 ≡ some frame
unfolding after new push expire expire_slots expires start_generation default_slots push_current
    claim fresh_slot fill_slot fill with_chunk get_or set replicate copy_from_slice take drop zeroed
    zero_payload frame
releases_frame = refl

push-IsReleased_example : IsReleased IsPlain (chunk 42 1) 16 frame
push-IsReleased_example =
    push-IsReleased IsPlain arrivals (chunk 42 1) 16 frame arrivals-AllSent refl
      (chunk-IsChunk 42 1 (omega arith)) releases_frame

push-completes_example :
    let a1 = push new (chunk_of 42 5 2 []) 10 in
    let a2 = push a1.0 (chunk_of 42 5 0 []) 11 in
    let a3 = push a2.0 (chunk_of 42 5 3 []) 12 in
    let a4 = push a3.0 (chunk_of 42 5 1 []) 13 in
    (a1.1 ≡ none) × (a2.1 ≡ none) × (a3.1 ≡ none) × ((p : RawPacket) × (a4.1 ≡ some p))
push-completes_example =
    push-completes 42 5 2 0 3 1 [] [] [] [] 10 11 12 13
      (omega arith, omega arith, omega arith, omega arith)
      (
        (λ e. absurd (omega (arith, e))),
        (λ e. absurd (omega (arith, e))),
        (λ e. absurd (omega (arith, e))),
        (λ e. absurd (omega (arith, e))),
        (λ e. absurd (omega (arith, e))),
        (λ e. absurd (omega (arith, e))),
      )
      (omega arith, omega arith, omega arith)

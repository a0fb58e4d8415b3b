-- ===== src/Stream/PcmAssembly.antt =====
-- gemacast-core/src/stream/player/pcm_assembly.rs: chunks to whole 10 ms frames. Times are numbers of
-- microseconds. A slot number is below 16, which is the number of slots. A chunk has an index below 4 and a
-- payload of 960 bytes, as `PcmDatagram::decode` gives it: for another, the indexing or the copying of the
-- code would panic, which is not modelled.
mod Chunks
pub mod Provenance
pub mod Completion
mod Examples
use Prim.Native.Nat.{bit_and, bit_or}
use gemacast.Prelude.{
  ℕ, ◌+◌, ◌-◌, ◌*◌, ◌%◌, ◌^◌, List, [], ◌∷◌, Option, none, some, Bool, true, false, not, ◌&&◌, max,
  ltb, leb, ◌==◌, if◌then◌else◌, is_some, get_or, set, replicate, copy_from_slice,
}
use gemacast.Audio.{RawPacket, zeroed, zero_payload}
use gemacast.Wire.PcmDatagram.{PcmChunk, payload_size, chunks}

abbrev pub slot_count : ℕ
slot_count = 16

-- 100 ms
abbrev pub assembly_deadline : ℕ
assembly_deadline = 100_000

pub record FrameSlot : Type 0 where
  pub sequence : Option ℕ
  pub first_arrival : Option ℕ
  pub mask : ℕ
  pub packet : Option RawPacket

-- `FrameSlot::default()`
abbrev pub empty_slot : FrameSlot
empty_slot = record { sequence = none; first_arrival = none; mask = 0; packet = none }

pub record PcmAssembly : Type 0 where
  pub generation : Option ℕ
  pub newest_sequence : ℕ
  pub slots : List FrameSlot
  pub completed_frames : ℕ
  pub expired_frames : ℕ

pub new : PcmAssembly
new = record {
  generation = none;
  newest_sequence = 0;
  slots = replicate slot_count empty_slot;
  completed_frames = 0;
  expired_frames = 0;
}

-- `first_arrival.is_some_and(|start| now - start >= ASSEMBLY_DEADLINE)`
abbrev pub is_late : ℕ → Option ℕ → Bool
is_late now none = false
is_late now (some start) = leb assembly_deadline (now - start)

pub expires : ℕ → FrameSlot → Bool
expires now slot = is_some slot.packet && is_late now slot.first_arrival

-- The loop of `expire`, with the count of expired frames.
pub expire_slots : ℕ → List FrameSlot → List FrameSlot × ℕ
unfolding expires
expire_slots now [] = ([], 0)
expire_slots now (slot ∷ slots) =
    let (rest, n) = expire_slots now slots in
    if expires now slot then (record slot { packet = none } ∷ rest, n + 1) else (slot ∷ rest, n)

pub expire : PcmAssembly → ℕ → PcmAssembly
unfolding expire_slots
expire a now =
    let (slots, n) = expire_slots now a.slots in
    record a { slots = slots; expired_frames = a.expired_frames + n }

abbrev pub is_older : ℕ → Option ℕ → Bool
is_older g none = false
is_older g (some current) = ltb g current

abbrev pub is_some_eq : ℕ → Option ℕ → Bool
is_some_eq g none = false
is_some_eq g (some current) = current == g

pub default_slots : List FrameSlot → List FrameSlot
default_slots [] = []
default_slots (slot ∷ slots) = empty_slot ∷ default_slots slots

-- A chunk of another generation starts the stream over.
pub start_generation : PcmAssembly → PcmChunk → PcmAssembly
unfolding default_slots
start_generation a chunk = if is_some_eq chunk.generation a.generation then a else record a {
  slots = default_slots a.slots;
  generation = some chunk.generation;
  newest_sequence = chunk.sequence;
}

abbrev pub slot_at : PcmAssembly → ℕ → FrameSlot
slot_at a sequence = get_or a.slots (sequence % slot_count) empty_slot

pub fresh_slot : ℕ → ℕ → FrameSlot
fresh_slot sequence now = record {
  sequence = some sequence;
  first_arrival = some now;
  mask = 0;
  packet = some (record (zeroed now) {
    seq_num = sequence;
    is_uncompressed = true;
    payload_len = payload_size * chunks;
  });
}

-- The slot for a sequence number, taken from another frame if need be.
pub claim : PcmAssembly → ℕ → ℕ → PcmAssembly
unfolding fresh_slot
claim a sequence now = if is_some_eq sequence (slot_at a sequence).sequence then a else record a {
  slots = set a.slots (sequence % slot_count) (fresh_slot sequence now);
  expired_frames =
      if is_some (slot_at a sequence).packet then a.expired_frames + 1 else a.expired_frames;
}

pub with_chunk : RawPacket → PcmChunk → RawPacket
with_chunk p chunk = record p {
  payload_data = copy_from_slice p.payload_data (chunk.index * payload_size) chunk.payload;
}

-- The rest of `push`, on the packet in the slot.
pub fill :
    PcmAssembly → FrameSlot → PcmChunk → ℕ → Option RawPacket → PcmAssembly × Option RawPacket
unfolding with_chunk
fill a slot chunk now none = (a, none)
fill a slot chunk now (some p) =
    if not (bit_and slot.mask (2 ^ chunk.index) == 0)
    then (a, none)
    else if not (bit_or slot.mask (2 ^ chunk.index) == 15)
    then (
      record a {
        slots = set a.slots (chunk.sequence % slot_count) (record slot {
          mask = bit_or slot.mask (2 ^ chunk.index);
          packet = some (with_chunk p chunk);
        });
      },
      none,
    )
    else (
      record a {
        slots =
            set a.slots (chunk.sequence % slot_count)
              (record slot { mask = bit_or slot.mask (2 ^ chunk.index); packet = none });
        completed_frames = a.completed_frames + 1;
      },
      some (record (with_chunk p chunk) { arrival_time = now }),
    )

pub fill_slot : PcmAssembly → PcmChunk → ℕ → PcmAssembly × Option RawPacket
unfolding fill
fill_slot a chunk now =
    fill a (slot_at a chunk.sequence) chunk now (slot_at a chunk.sequence).packet

abbrev pub see : PcmAssembly → ℕ → PcmAssembly
see a sequence = record a { newest_sequence = max a.newest_sequence sequence }

pub push_current : PcmAssembly → PcmChunk → ℕ → PcmAssembly × Option RawPacket
unfolding claim fill_slot
push_current a chunk now =
    if leb slot_count (a.newest_sequence - chunk.sequence)
    then (a, none)
    else fill_slot (claim a chunk.sequence now) chunk now

pub push : PcmAssembly → PcmChunk → ℕ → PcmAssembly × Option RawPacket
unfolding expire start_generation push_current
push a chunk now =
    if is_older chunk.generation (expire a now).generation
    then (expire a now, none)
    else push_current (see (start_generation (expire a now) chunk) chunk.sequence) chunk now

-- ===== src/Jitter/Buffer.antt =====
-- gemacast-core/src/jitter/buffer.rs: packets in a ring of slots, by sequence number. Sequence
-- numbers are `u64` and wrap at 2 ^ 64; `occupied` is a `u32`. A slot number is below the capacity,
-- which is the length of the ring.
mod Slots
pub mod Invariant
pub mod Preservation
pub mod Spec
pub mod Refinement
pub mod Playing
pub mod Cache
pub mod Run
mod Examples
use gemacast.Prelude.{
  ℕ, zero, suc, ◌+◌, ◌-◌, ◌/◌, ◌%◌, ◌^◌, List, [], ◌∷◌, map, Option, none, some, Bool, true, false,
  not, get_or, set, replicate, min, max, ltb, leb, ◌==◌, if◌then◌else◌, is_some,
}
use gemacast.Audio.{RawPacket}

abbrev pub buffer_capacity : ℕ
buffer_capacity = 512

pub data InsertResult : Type 0 where
  accepted stale stream_restarted : InsertResult

abbrev pub Slots : Type 0
Slots = List (Option RawPacket)

pub record JitterBuffer : Type 0 where
  pub slots : Slots
  pub capacity : ℕ
  pub next_play_seq : ℕ
  pub initialized : Bool
  pub occupied : ℕ
  pub cached_min_seq : Option ℕ

-- `a + b` of two `u64`s, and `a + 1` of a `u32`.
abbrev pub add_u64 : ℕ → ℕ → ℕ
add_u64 a b = (a + b) % 2 ^ 64

abbrev pub inc_u32 : ℕ → ℕ
inc_u32 a = (a + 1) % 2 ^ 32

-- `self.slots[i]`
pub slot : Slots → ℕ → Option RawPacket
slot xs i = get_or xs i none

pub empty_slots : Slots → Slots
empty_slots [] = []
empty_slots (x ∷ xs) = none ∷ empty_slots xs

pub new : JitterBuffer
new = record {
  slots = replicate buffer_capacity none;
  capacity = buffer_capacity;
  next_play_seq = 0;
  initialized = false;
  occupied = 0;
  cached_min_seq = none;
}

-- The body of the loop of `skip_to`.
pub clear_slot : JitterBuffer → ℕ → JitterBuffer
clear_slot b seq =
    if is_some (slot b.slots (seq % b.capacity))
    then record b { slots = set b.slots (seq % b.capacity) none; occupied = b.occupied - 1 }
    else b

-- `for seq in start..start + n`
pub clear_loop : ℕ → ℕ → JitterBuffer → JitterBuffer
unfolding clear_slot
clear_loop zero seq b = b
clear_loop (suc n) seq b = clear_loop n (seq + 1) (clear_slot b seq)

pub clear_skipped : JitterBuffer → ℕ → JitterBuffer
clear_skipped b new_seq =
    if leb b.capacity (new_seq - b.next_play_seq)
    then record b { slots = empty_slots b.slots; occupied = 0 }
    else clear_loop (min new_seq (add_u64 b.next_play_seq b.capacity) - b.next_play_seq)
        b.next_play_seq b

pub skip_to : JitterBuffer → ℕ → JitterBuffer
skip_to b new_seq = record (clear_skipped b new_seq) {
  next_play_seq = new_seq;
  cached_min_seq = none;
}

pub reset : JitterBuffer → JitterBuffer
reset b = record b {
  slots = empty_slots b.slots;
  next_play_seq = 0;
  initialized = false;
  occupied = 0;
  cached_min_seq = none;
}

-- `self.cached_min_seq.map_or(seq, |m| m.min(seq))`
pub min_cached : Option ℕ → ℕ → ℕ
min_cached none seq = seq
min_cached (some m) seq = min m seq

-- The writes at the end of `insert`.
pub store : JitterBuffer → RawPacket → JitterBuffer
unfolding min_cached
store b packet = record b {
  slots = set b.slots (packet.seq_num % b.capacity) (some packet);
  occupied =
      if is_some (slot b.slots (packet.seq_num % b.capacity))
      then b.occupied
      else inc_u32 b.occupied;
  cached_min_seq = some (min_cached b.cached_min_seq packet.seq_num);
}

-- The jump of the playhead when a packet lies past the ring.
pub make_room : JitterBuffer → ℕ → JitterBuffer
make_room b seq =
    if leb (add_u64 b.next_play_seq b.capacity) seq then skip_to b (seq - b.capacity / 2) else b

pub anchor : JitterBuffer → ℕ → JitterBuffer
anchor b seq = if b.initialized then b else record b { next_play_seq = seq; initialized = true }

pub restart : JitterBuffer → ℕ → JitterBuffer
restart b seq = record (reset b) { next_play_seq = seq; initialized = true }

pub insert_anchored : JitterBuffer → RawPacket → JitterBuffer × InsertResult
insert_anchored b packet =
    if ltb packet.seq_num b.next_play_seq
    then (if ltb b.capacity (b.next_play_seq - packet.seq_num)
        then (
          store (make_room (restart b packet.seq_num) packet.seq_num) packet,
          InsertResult.stream_restarted,
        )
        else (b, InsertResult.stale))
    else (store (make_room b packet.seq_num) packet, InsertResult.accepted)

pub insert : JitterBuffer → RawPacket → JitterBuffer × InsertResult
insert b packet = insert_anchored (anchor b packet.seq_num) packet

-- What `pop_next` does with the content of the playhead's slot.
pub pop_slot : JitterBuffer → Option RawPacket → JitterBuffer × Option RawPacket
pop_slot b none = (record b { next_play_seq = add_u64 b.next_play_seq 1 }, none)
pop_slot b (some pkt) =
    if pkt.seq_num == b.next_play_seq
    then (
      record b {
        slots = set b.slots (b.next_play_seq % b.capacity) none;
        occupied = b.occupied - 1;
        next_play_seq = add_u64 b.next_play_seq 1;
        cached_min_seq = none;
      },
      some pkt,
    )
    else if ltb b.next_play_seq pkt.seq_num
    then (record b { next_play_seq = add_u64 b.next_play_seq 1; cached_min_seq = none }, none)
    else (
      record b {
        slots = set b.slots (b.next_play_seq % b.capacity) none;
        occupied = b.occupied - 1;
        next_play_seq = add_u64 b.next_play_seq 1;
        cached_min_seq = none;
      },
      none,
    )

pub pop_next : JitterBuffer → JitterBuffer × Option RawPacket
unfolding pop_slot
pop_next b =
    if b.initialized then pop_slot b (slot b.slots (b.next_play_seq % b.capacity)) else (b, none)

-- `self.slots[index].as_ref().is_some_and(|p| p.seq_num == self.next_play_seq)`
abbrev pub holds_seq : Option RawPacket → ℕ → Bool
holds_seq none seq = false
holds_seq (some p) seq = p.seq_num == seq

pub advance_one : JitterBuffer → JitterBuffer
advance_one b =
    if holds_seq (slot b.slots (b.next_play_seq % b.capacity)) b.next_play_seq
    then record b {
      slots = set b.slots (b.next_play_seq % b.capacity) none;
      occupied = b.occupied - 1;
      next_play_seq = add_u64 b.next_play_seq 1;
      cached_min_seq = none;
    }
    else record b { next_play_seq = add_u64 b.next_play_seq 1; cached_min_seq = none }

pub occupied_count : JitterBuffer → ℕ
occupied_count b = if b.initialized then b.occupied else 0

pub has_next : JitterBuffer → Bool
has_next b =
    if b.initialized
    then holds_seq (slot b.slots (b.next_play_seq % b.capacity)) b.next_play_seq
    else false

-- `for pkt in self.slots.iter().flatten()`, from the minimum of the slots before.
pub min_seq_from : Option ℕ → Slots → Option ℕ
min_seq_from m [] = m
min_seq_from m (none ∷ xs) = min_seq_from m xs
min_seq_from none (some p ∷ xs) = min_seq_from (some p.seq_num) xs
min_seq_from (some m) (some p ∷ xs) = min_seq_from (some (min m p.seq_num)) xs

abbrev pub recompute_min : JitterBuffer → Option ℕ → JitterBuffer × Option ℕ
recompute_min b (some m) = (b, some m)
recompute_min b none =
    (record b { cached_min_seq = min_seq_from none b.slots }, min_seq_from none b.slots)

pub lowest_available_seq : JitterBuffer → JitterBuffer × Option ℕ
unfolding min_seq_from
lowest_available_seq b = recompute_min b b.cached_min_seq

pub fast_forward : JitterBuffer → ℕ → JitterBuffer
fast_forward b next_seq = skip_to b next_seq

-- The loop of `contiguous_depth` over `0..capacity`, from `i`.
pub depth_loop : ℕ → ℕ → JitterBuffer → ℕ
depth_loop zero i b = 0
depth_loop (suc n) i b =
    let rest = depth_loop n (i + 1) b in
    elim (slot b.slots (add_u64 b.next_play_seq i % b.capacity)) [
      | none ↦ rest
      | some p ↦ if leb b.next_play_seq p.seq_num then rest + 1 else rest
    ]

pub contiguous_depth : JitterBuffer → ℕ
unfolding depth_loop
contiguous_depth b = if b.initialized then depth_loop b.capacity 0 b else 0

-- ===== src/Jitter/Buffer/Playing.antt =====
-- The operations that move the playhead, against the specification.
use gemacast.Prelude.{
  ℕ, ◌+◌, ◌-◌, ◌%◌, ◌^◌, ◌≤◌, ◌<◌, ◌≡◌, refl, sym, ap, ◌∙◌, Option, none, some, true, false, arith,
  length, set, length-set, is_some, ◌==◌, eq→==, if◌then◌else◌, Bool-cases, Option-cases, inl, inr,
  ◌⊎◌, length-replicate,
}
use gemacast.Audio.{RawPacket}
use gemacast.Jitter.Buffer.{
  JitterBuffer, slot, add_u64, new, pop_slot, pop_next, advance_one, has_next, fast_forward, reset,
}
use gemacast.Jitter.Buffer.Slots.{
  count, slot-set, slot-empty_slots, length-empty_slots, count-empty_slots, count-set,
  ring_distinct, mod-lt_pos, slot-replicate, count-replicate,
}
use gemacast.Jitter.Buffer.Invariant.{at_seq, held, IsValid}
use gemacast.Jitter.Buffer.Preservation.{
  held-skip_to, skip_to-IsValid, next-skip_to, capacity-skip_to, initialized-skip_to,
}
use gemacast.Jitter.Buffer.Spec.{Playout, Implements}
use gemacast.Jitter.Buffer.Spec
use gemacast.Jitter.Buffer.Refinement.{Refines}

-- The playhead's slot holds the next packet or nothing.
playhead_slot :
    (b : JitterBuffer) (p : RawPacket)
    → IsValid b
    → slot b.slots (b.next_play_seq % b.capacity) ≡ some p
    → p.seq_num ≡ b.next_play_seq
playhead_slot b p v e =
    let (m, l, u) = v.window (b.next_play_seq % b.capacity) p e in
    ring_distinct b.capacity b.next_play_seq p.seq_num b.next_play_seq l u (omega arith)
      (omega (arith, v.capacity_pos)) m

-- `b` without the packet at the playhead, and the playhead one further.
abbrev dropped : JitterBuffer → JitterBuffer
dropped b = record b {
  slots = set b.slots (b.next_play_seq % b.capacity) none;
  occupied = b.occupied - 1;
  next_play_seq = add_u64 b.next_play_seq 1;
  cached_min_seq = none;
}

-- `b` with the playhead one further.
abbrev moved : JitterBuffer → Option ℕ → JitterBuffer
moved b cache = record b { next_play_seq = add_u64 b.next_play_seq 1; cached_min_seq = cache }

dropped-IsValid :
    (b : JitterBuffer) (p : RawPacket)
    → IsValid b
    → b.next_play_seq + b.capacity + 1 < 2 ^ 64
    → slot b.slots (b.next_play_seq % b.capacity) ≡ some p
    → IsValid (dropped b)
dropped-IsValid b p v room e = record {
  capacity_pos = v.capacity_pos;
  capacity_small = v.capacity_small;
  slots_length = length-set b.slots (b.next_play_seq % b.capacity) none ∙ v.slots_length;
  occupied_count = ground (arith, counted, v.occupied_count, e);
  playhead = omega arith;
  window = λ i q f. ground (
    arith,
    slot-set b.slots (b.next_play_seq % b.capacity) i none,
    inside,
    v.window i q,
    ap (λ (t : ℕ). t % b.capacity) {x = q.seq_num} {y = b.next_play_seq},
  );
  idle = λ off. ground (arith, counted, v.idle off, e);
  cached = λ m f. cc;
}
  where
    inside : b.next_play_seq % b.capacity < length b.slots
    inside = omega (arith, mod-lt_pos b.next_play_seq b.capacity v.capacity_pos, v.slots_length)

    counted : count (set b.slots (b.next_play_seq % b.capacity) none) + 1 ≡ count b.slots
    counted = ground (arith, count-set b.slots (b.next_play_seq % b.capacity) none inside, e)

moved-IsValid :
    (b : JitterBuffer) (cache : Option ℕ)
    → IsValid b
    → b.next_play_seq + b.capacity + 1 < 2 ^ 64
    → slot b.slots (b.next_play_seq % b.capacity) ≡ none
    → (cache ≡ none) ⊎ (cache ≡ b.cached_min_seq)
    → IsValid (moved b cache)
moved-IsValid b cache v room e c = record {
  capacity_pos = v.capacity_pos;
  capacity_small = v.capacity_small;
  slots_length = v.slots_length;
  occupied_count = v.occupied_count;
  playhead = omega arith;
  window = λ i q f. ground (
    arith,
    v.window i q,
    ap (λ (t : ℕ). slot b.slots (t % b.capacity)) {x = q.seq_num} {y = b.next_play_seq},
  );
  idle = v.idle;
  cached = λ m f. unfold held in ground (arith, c, v.cached m);
}

held-dropped :
    (b : JitterBuffer) (p : RawPacket) (s : ℕ)
    → IsValid b
    → slot b.slots (b.next_play_seq % b.capacity) ≡ some p
    → held (dropped b) s ≡ (if s == b.next_play_seq then none else held b s)
unfolding held
held-dropped b p s v e = ground (
  arith,
  e,
  playhead_slot b p v,
  slot-set b.slots (b.next_play_seq % b.capacity) (s % b.capacity) none,
  mod-lt_pos b.next_play_seq b.capacity v.capacity_pos,
  v.slots_length,
  ap (λ (t : ℕ). slot b.slots t) {x = s % b.capacity} {y = b.next_play_seq % b.capacity},
  ap (λ (t : ℕ). t % b.capacity) {x = s} {y = b.next_play_seq},
)

held-moved :
    (b : JitterBuffer) (cache : Option ℕ) (s : ℕ)
    → slot b.slots (b.next_play_seq % b.capacity) ≡ none
    → held (moved b cache) s ≡ (if s == b.next_play_seq then none else held b s)
unfolding held
held-moved b cache s e =
    ground (arith, e, ap (λ (t : ℕ). slot b.slots (t % b.capacity)) {x = s} {y = b.next_play_seq})

dropped-Refines :
    (b : JitterBuffer) (a : Playout) (p : RawPacket)
    → Refines b a
    → b.next_play_seq + b.capacity + 1 < 2 ^ 64
    → slot b.slots (b.next_play_seq % b.capacity) ≡ some p
    → Refines (dropped b) (Spec.advance a)
unfolding Spec.advance
dropped-Refines b a p r room e = record {
  valid = dropped-IsValid b p r.valid room e;
  implements = record {
    size_eq = r.implements.size_eq;
    next_eq = omega (arith, r.implements.next_eq);
    started_eq = r.implements.started_eq;
    held_eq = λ s.
        ground (arith, held-dropped b p s r.valid e, r.implements.held_eq s, r.implements.next_eq);
  };
}

moved-Refines :
    (b : JitterBuffer) (a : Playout) (cache : Option ℕ)
    → Refines b a
    → b.next_play_seq + b.capacity + 1 < 2 ^ 64
    → slot b.slots (b.next_play_seq % b.capacity) ≡ none
    → (cache ≡ none) ⊎ (cache ≡ b.cached_min_seq)
    → Refines (moved b cache) (Spec.advance a)
unfolding Spec.advance
moved-Refines b a cache r room e c = record {
  valid = moved-IsValid b cache r.valid room e c;
  implements = record {
    size_eq = r.implements.size_eq;
    next_eq = omega (arith, r.implements.next_eq);
    started_eq = r.implements.started_eq;
    held_eq =
        λ s. ground (arith, held-moved b cache s e, r.implements.held_eq s, r.implements.next_eq);
  };
}

-- `advance_one` gives up exactly the next packet.
pub advance_one-Refines :
    (b : JitterBuffer) (a : Playout)
    → Refines b a
    → b.next_play_seq + b.capacity + 1 < 2 ^ 64
    → Refines (advance_one b) (Spec.advance a)
unfolding advance_one
advance_one-Refines b a r room = elim (Option-cases (slot b.slots (b.next_play_seq % b.capacity))) [
  | inl e ↦ rw (e, advance_one) (moved-Refines b a none r room e (inl refl))
  | inr (p, e) ↦
      rw (e, advance_one, eq→== _ _ (playhead_slot b p r.valid e)) (dropped-Refines b a p r room e)
]

pop-started : (a : Playout) → a.started ≡ true → Spec.pop a ≡ (Spec.advance a, a.packet a.next)
unfolding Spec.pop Spec.advance
pop-started a h = ground arith

pop_next-started :
    (b : JitterBuffer)
    → b.initialized ≡ true
    → pop_next b ≡ pop_slot b (slot b.slots (b.next_play_seq % b.capacity))
unfolding pop_next
pop_next-started b h = simp h

pop_next-idle :
    (b : JitterBuffer) (a : Playout)
    → Refines b a
    → b.initialized ≡ false
    → a.started ≡ false
    → Refines (pop_next b).0 (Spec.pop a).0 × ((pop_next b).1 ≡ (Spec.pop a).1)
unfolding pop_next Spec.pop
pop_next-idle b a r off off' = simp (off, off') (r, refl)

pop_slot-Refines :
    (b : JitterBuffer) (a : Playout)
    → Refines b a
    → b.next_play_seq + b.capacity + 1 < 2 ^ 64
    → Refines (pop_slot b (slot b.slots (b.next_play_seq % b.capacity))).0 (Spec.advance a)
      × ((pop_slot b (slot b.slots (b.next_play_seq % b.capacity))).1 ≡ a.packet a.next)
unfolding pop_slot held
pop_slot-Refines b a r room = elim (Option-cases (slot b.slots (b.next_play_seq % b.capacity))) [
  | inl e ↦
      rw (e, pop_slot)
        (
          moved-Refines b a b.cached_min_seq r room e (inr refl),
          ground (arith, e, r.implements.held_eq b.next_play_seq, r.implements.next_eq),
        )
  | inr (p, e) ↦
      rw (e, pop_slot, eq→== _ _ (playhead_slot b p r.valid e))
        (
          dropped-Refines b a p r room e,
          ground (
            arith,
            e,
            r.implements.held_eq b.next_play_seq,
            r.implements.next_eq,
            playhead_slot b p r.valid e,
          ),
        )
]

-- `pop_next` on a valid buffer with its playhead more than one ring below 2 ^ 64 keeps the buffer
-- valid and returns exactly the packet that the specification holds at the playhead. The playhead
-- moves on by one whether or not the packet is there, except before the first packet.
pub pop_next-Refines :
    (b : JitterBuffer) (a : Playout)
    → Refines b a
    → b.next_play_seq + b.capacity + 1 < 2 ^ 64
    → Refines (pop_next b).0 (Spec.pop a).0 × ((pop_next b).1 ≡ (Spec.pop a).1)
pop_next-Refines b a r room = elim (Bool-cases b.initialized) [
  | inr off ↦ pop_next-idle b a r off (sym r.implements.started_eq ∙ off)
  | inl on ↦
      rw (pop_next-started b on, pop-started a (sym r.implements.started_eq ∙ on))
        (pop_slot-Refines b a r room)
]

-- `fast_forward` to a sequence number at or after the playhead, more than one ring below 2 ^ 64,
-- keeps the buffer valid, moves the playhead there and drops exactly the packets before it.
pub fast_forward-Refines :
    (b : JitterBuffer) (a : Playout) (n : ℕ)
    → Refines b a
    → b.next_play_seq ≤ n
    → n + b.capacity < 2 ^ 64
    → Refines (fast_forward b n) (Spec.skip a n)
unfolding fast_forward Spec.skip
fast_forward-Refines b a n r h room = record {
  valid = skip_to-IsValid b n r.valid h room;
  implements = record {
    size_eq = capacity-skip_to b n r.valid h ∙ r.implements.size_eq;
    next_eq = next-skip_to b n;
    started_eq = initialized-skip_to b n r.valid h ∙ r.implements.started_eq;
    held_eq = λ s. ground (arith, held-skip_to b n s r.valid h, r.implements.held_eq s);
  };
}

pub new-Refines : Refines new (record { size = 512; next = 0; started = false; packet = λ s. none })
unfolding new held
new-Refines = record {
  valid = record {
    capacity_pos = omega arith;
    capacity_small = omega arith;
    slots_length = length-replicate 512 none;
    occupied_count = sym (count-replicate 512);
    playhead = omega arith;
    window = λ i p e. cc (slot-replicate 512 i);
    idle = λ off. count-replicate 512;
    cached = λ m e. cc;
  };
  implements = record {
    size_eq = refl;
    next_eq = refl;
    started_eq = refl;
    held_eq = λ s. ap (at_seq s) (slot-replicate 512 (s % 512));
  };
}

pub reset-Refines :
    (b : JitterBuffer) (a : Playout)
    → Refines b a
    → Refines (reset b) (record a { next = 0; started = false; packet = λ s. none })
unfolding reset held
reset-Refines b a r = record {
  valid = record {
    capacity_pos = r.valid.capacity_pos;
    capacity_small = r.valid.capacity_small;
    slots_length = length-empty_slots b.slots ∙ r.valid.slots_length;
    occupied_count = sym (count-empty_slots b.slots);
    playhead = omega (arith, r.valid.playhead);
    window = λ i p e. cc (slot-empty_slots b.slots i);
    idle = λ off. count-empty_slots b.slots;
    cached = λ m e. cc;
  };
  implements = record {
    size_eq = r.implements.size_eq;
    next_eq = refl;
    started_eq = refl;
    held_eq = λ s. ap (at_seq s) (slot-empty_slots b.slots (s % b.capacity));
  };
}

-- On a buffer that refines it, `has_next` says exactly whether the started specification holds the
-- packet at its playhead.
pub has_next_iff :
    (b : JitterBuffer) (a : Playout)
    → Refines b a
    → has_next b ≡ (if a.started then is_some (a.packet a.next) else false)
unfolding has_next held
has_next_iff b a r =
    ground
      (arith, r.implements.started_eq, r.implements.held_eq b.next_play_seq, r.implements.next_eq)

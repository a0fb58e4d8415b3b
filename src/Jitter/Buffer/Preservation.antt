-- ===== src/Jitter/Buffer/Preservation.antt =====
-- The well-formedness of the jitter buffer and the packets that it holds, after each operation.
use gemacast.Prelude.{
  ℕ, ◌+◌, ◌%◌, ◌^◌, ◌≤◌, ◌<◌, ◌≡◌, ◌≢◌, refl, sym, ap, ◌∙◌, Option, none, some, true, arith, set,
  length-set, leb, ◌==◌, if◌then◌else◌, Option-cases, inl, inr,
}
use gemacast.Audio.{RawPacket}
use gemacast.Jitter.Buffer.{JitterBuffer, slot, skip_to, clear_skipped, store}
use gemacast.Jitter.Buffer.Slots.{
  slot-set, count-le, count-set, ring_distinct, mod-lt_pos, slot-none_of_count, count-zero,
}
use gemacast.Jitter.Buffer.Invariant.{
  Window, at_seq, held, IsValid, keep_from, Cleared, Cleared-Window, clear_skipped-Cleared,
}

at_seq-keep_from :
    (lo s : ℕ) (o : Option RawPacket)
    → at_seq s (keep_from lo o) ≡ (if leb lo s then at_seq s o else none)
at_seq-keep_from lo s none = ground arith
at_seq-keep_from lo s (some p) = ground arith

pub held-skip_to :
    (b : JitterBuffer) (new_seq s : ℕ)
    → IsValid b
    → b.next_play_seq ≤ new_seq
    → held (skip_to b new_seq) s ≡ (if leb new_seq s then held b s else none)
unfolding held skip_to
held-skip_to b new_seq s v h =
    let k = clear_skipped-Cleared b new_seq v h in
    rw (k.capacity_eq, k.slots_eq (s % b.capacity)) (at_seq-keep_from new_seq s _)

pub skip_to-IsValid :
    (b : JitterBuffer) (new_seq : ℕ)
    → IsValid b
    → b.next_play_seq ≤ new_seq
    → new_seq + b.capacity < 2 ^ 64
    → IsValid (skip_to b new_seq)
unfolding skip_to
skip_to-IsValid b new_seq v h small = record {
  capacity_pos = omega (arith, k.capacity_eq, v.capacity_pos);
  capacity_small = omega (arith, k.capacity_eq, v.capacity_small);
  slots_length = k.slots_length;
  occupied_count = k.occupied_count;
  playhead = omega (arith, k.capacity_eq);
  window = λ i p e.
      let (m, l, u) = Cleared-Window b.capacity b.next_play_seq new_seq _ k v.window i p e in
      (ap (λ c. p.seq_num % c) k.capacity_eq ∙ m, l, omega (arith, k.capacity_eq));
  idle = λ off. count-zero (clear_skipped b new_seq).slots (λ i.
      k.slots_eq i
      ∙ ap (keep_from new_seq)
          (slot-none_of_count b.slots i (v.idle (sym k.initialized_eq ∙ off))));
  cached = λ m e. cc;
}
  where
    k : Cleared b (clear_skipped b new_seq) new_seq
    k = clear_skipped-Cleared b new_seq v h

-- Another packet in the slot of a window's packet would be that packet.
slot_mate :
    (b : JitterBuffer) (seq s : ℕ)
    → IsValid b
    → b.next_play_seq ≤ seq
    → seq < b.next_play_seq + b.capacity
    → seq % b.capacity ≡ s % b.capacity
    → seq ≢ s
    → held b s ≡ none
unfolding held
slot_mate b seq s v l u e n = elim (Option-cases (slot b.slots (s % b.capacity))) [
  | inl f ↦ rw f refl
  | inr (q, f) ↦
      let (m, l', u') = v.window (s % b.capacity) q f in
      let same : q.seq_num ≡ seq =
        ring_distinct b.capacity b.next_play_seq q.seq_num seq l' u' l u (m ∙ sym e) in
      rw f (ground arith)
]

-- A packet in the window goes into its slot.
pub held-store :
    (b : JitterBuffer) (p : RawPacket) (s : ℕ)
    → IsValid b
    → b.next_play_seq ≤ p.seq_num
    → p.seq_num < b.next_play_seq + b.capacity
    → held (store b p) s ≡ (if p.seq_num == s then some p else held b s)
unfolding held store
held-store b p s v l u = ground (
  arith,
  slot-set b.slots (p.seq_num % b.capacity) (s % b.capacity) (some p),
  mod-lt_pos p.seq_num b.capacity v.capacity_pos,
  v.slots_length,
  ap (λ (t : ℕ). t % b.capacity) {x = p.seq_num} {y = s},
  slot_mate b p.seq_num s v l u,
)

store-Window :
    (b : JitterBuffer) (p : RawPacket)
    → IsValid b
    → b.next_play_seq ≤ p.seq_num
    → p.seq_num < b.next_play_seq + b.capacity
    → Window b.capacity b.next_play_seq
        (b.next_play_seq + b.capacity)
        (set b.slots (p.seq_num % b.capacity) (some p))
store-Window b p v l u i q e = ground (
  arith,
  slot-set b.slots (p.seq_num % b.capacity) i (some p),
  mod-lt_pos p.seq_num b.capacity v.capacity_pos,
  v.slots_length,
  v.window i q,
)

pub store-IsValid :
    (b : JitterBuffer) (p : RawPacket)
    → IsValid b
    → b.initialized ≡ true
    → b.next_play_seq ≤ p.seq_num
    → p.seq_num < b.next_play_seq + b.capacity
    → IsValid (store b p)
unfolding store
store-IsValid b p v on l u = record {
  capacity_pos = v.capacity_pos;
  capacity_small = v.capacity_small;
  slots_length = length-set b.slots (p.seq_num % b.capacity) (some p) ∙ v.slots_length;
  occupied_count = ground (
    arith,
    count-set b.slots (p.seq_num % b.capacity) (some p),
    mod-lt_pos p.seq_num b.capacity v.capacity_pos,
    v.slots_length,
    v.occupied_count,
    v.capacity_small,
    count-le b.slots,
  );
  playhead = v.playhead;
  window = store-Window b p v l u;
  idle = λ off. cc;
  cached = λ m e none_held. ground (arith, held-store b p m v l u, v.cached m);
}

pub next-skip_to : (b : JitterBuffer) (n : ℕ) → (skip_to b n).next_play_seq ≡ n
unfolding skip_to
next-skip_to b n = refl

pub capacity-skip_to :
    (b : JitterBuffer) (n : ℕ)
    → IsValid b
    → b.next_play_seq ≤ n
    → (skip_to b n).capacity ≡ b.capacity
unfolding skip_to
capacity-skip_to b n v h = (clear_skipped-Cleared b n v h).capacity_eq

pub initialized-skip_to :
    (b : JitterBuffer) (n : ℕ)
    → IsValid b
    → b.next_play_seq ≤ n
    → (skip_to b n).initialized ≡ b.initialized
unfolding skip_to
initialized-skip_to b n v h = (clear_skipped-Cleared b n v h).initialized_eq

-- ===== src/Jitter/Buffer/Refinement.antt =====
-- The ring and the specification, operation by operation.
use gemacast.Prelude.{
  ℕ, ◌+◌, ◌-◌, ◌/◌, ◌%◌, ◌^◌, ◌≤◌, ◌<◌, ◌≡◌, refl, sym, ap, ◌∙◌, subst, none, true, false, arith,
  leb, ltb, if◌then◌else◌, Bool-cases, if_elim, inl, inr,
}
use native.Mathlib.Nat.{le_refl}
use gemacast.Audio.{RawPacket}
use gemacast.Jitter.Buffer.{
  JitterBuffer, add_u64, reset, store, make_room, anchor, restart, insert_anchored, insert,
}
use gemacast.Jitter.Buffer.Slots.{
  count, slot-empty_slots, length-empty_slots, count-empty_slots, slot-none_of_count,
}
use gemacast.Jitter.Buffer.Invariant.{at_seq, held, IsValid}
use gemacast.Jitter.Buffer.Preservation.{
  held-skip_to, skip_to-IsValid, held-store, store-IsValid, next-skip_to, capacity-skip_to,
  initialized-skip_to,
}
use gemacast.Jitter.Buffer.Spec.{Playout, Implements}
use gemacast.Jitter.Buffer.Spec

-- A buffer is valid and implements the specification.
pub record Refines (b : JitterBuffer) (a : Playout) : Type 0 where
  pub valid : IsValid b
  pub implements : Implements b a

held-none : (b : JitterBuffer) (s : ℕ) → count b.slots ≡ 0 → held b s ≡ none
unfolding held
held-none b s h = ap (at_seq s) (slot-none_of_count b.slots (s % b.capacity) h)

-- With no packet in it a buffer is valid at any playhead.
empty-IsValid :
    (b : JitterBuffer) (seq : ℕ)
    → IsValid b
    → count b.slots ≡ 0
    → seq + b.capacity < 2 ^ 64
    → IsValid (record b { next_play_seq = seq; initialized = true })
unfolding held
empty-IsValid b seq v z h = record {
  capacity_pos = v.capacity_pos;
  capacity_small = v.capacity_small;
  slots_length = v.slots_length;
  occupied_count = v.occupied_count;
  playhead = h;
  window = λ i p e. cc (slot-none_of_count b.slots i z);
  idle = λ off. cc;
  cached = v.cached;
}

anchor-IsValid :
    (b : JitterBuffer) (seq : ℕ) → IsValid b → seq + b.capacity < 2 ^ 64 → IsValid (anchor b seq)
unfolding anchor
anchor-IsValid b seq v h =
    if_elim IsValid b.initialized _ _ (λ on. v) (λ off. empty-IsValid b seq v (v.idle off) h)

restart-IsValid :
    (b : JitterBuffer) (seq : ℕ) → IsValid b → seq + b.capacity < 2 ^ 64 → IsValid (restart b seq)
unfolding restart reset
restart-IsValid b seq v h = record {
  capacity_pos = v.capacity_pos;
  capacity_small = v.capacity_small;
  slots_length = length-empty_slots b.slots ∙ v.slots_length;
  occupied_count = sym (count-empty_slots b.slots);
  playhead = h;
  window = λ i p e. cc (slot-empty_slots b.slots i);
  idle = λ off. cc;
  cached = λ m e. cc;
}

-- Room for a packet at or after the playhead.
record HasRoom (b r : JitterBuffer) (p : RawPacket) : Type 0 where
  valid : IsValid r
  initialized_eq : r.initialized ≡ b.initialized
  lower : r.next_play_seq ≤ p.seq_num
  upper : p.seq_num < r.next_play_seq + r.capacity

make_room-HasRoom :
    (b : JitterBuffer) (p : RawPacket)
    → IsValid b
    → b.next_play_seq ≤ p.seq_num
    → p.seq_num + b.capacity < 2 ^ 64
    → HasRoom b (make_room b p.seq_num) p
unfolding make_room
make_room-HasRoom b p v l h =
    elim (Bool-cases (leb (add_u64 b.next_play_seq b.capacity) p.seq_num)) [
      | inr near ↦
          rw (near, make_room)
            (record {
              valid = v;
              initialized_eq = refl;
              lower = l;
              upper = ground (arith, v.playhead);
            })
      | inl far ↦
          let back : b.next_play_seq ≤ p.seq_num - b.capacity / 2 = ground (arith, v.playhead) in
          let n = p.seq_num - b.capacity / 2 in
          rw (far, make_room)
            (record {
              valid = skip_to-IsValid b n v back (omega arith);
              initialized_eq = initialized-skip_to b n v back;
              lower = omega (arith, next-skip_to b n);
              upper = omega (arith, next-skip_to b n, capacity-skip_to b n v back, v.capacity_pos);
            })
    ]

-- `insert` with the playhead at or before the packet is `put` of the specification.
placed : JitterBuffer → RawPacket → JitterBuffer
placed b p = store (make_room b p.seq_num) p

placed-IsValid :
    (b : JitterBuffer) (p : RawPacket)
    → IsValid b
    → b.initialized ≡ true
    → b.next_play_seq ≤ p.seq_num
    → p.seq_num + b.capacity < 2 ^ 64
    → IsValid (placed b p)
unfolding placed
placed-IsValid b p v on l h =
    let r = make_room-HasRoom b p v l h in
    store-IsValid (make_room b p.seq_num) p r.valid (r.initialized_eq ∙ on) r.lower r.upper

next-store : (b : JitterBuffer) (p : RawPacket) → (store b p).next_play_seq ≡ b.next_play_seq
unfolding store
next-store b p = refl

initialized-store : (b : JitterBuffer) (p : RawPacket) → (store b p).initialized ≡ b.initialized
unfolding store
initialized-store b p = refl

capacity-store : (b : JitterBuffer) (p : RawPacket) → (store b p).capacity ≡ b.capacity
unfolding store
capacity-store b p = refl

capacity-make_room :
    (b : JitterBuffer) (seq : ℕ) → IsValid b → (make_room b seq).capacity ≡ b.capacity
unfolding make_room
capacity-make_room b seq v = ground (arith, v.playhead, capacity-skip_to b (seq - b.capacity / 2) v)

next-make_room :
    (b : JitterBuffer) (seq : ℕ)
    → IsValid b
    → (make_room b seq).next_play_seq
      ≡ (if leb (b.next_play_seq + b.capacity) seq then seq - b.capacity / 2 else b.next_play_seq)
unfolding make_room
next-make_room b seq v = ground (arith, v.playhead, next-skip_to b (seq - b.capacity / 2))

held-make_room :
    (b : JitterBuffer) (seq s : ℕ)
    → IsValid b
    → held (make_room b seq) s ≡ (
        if leb (b.next_play_seq + b.capacity) seq
        then if leb (seq - b.capacity / 2) s then held b s else none
        else held b s)
unfolding make_room
held-make_room b seq s v = ground (arith, v.playhead, held-skip_to b (seq - b.capacity / 2) s v)

placed-Implements :
    (b : JitterBuffer) (a : Playout) (p : RawPacket)
    → IsValid b
    → Implements b a
    → b.initialized ≡ true
    → b.next_play_seq ≤ p.seq_num
    → p.seq_num + b.capacity < 2 ^ 64
    → Implements (placed b p) (Spec.put a p)
unfolding placed
placed-Implements b a p v i on l h = record {
  size_eq = ground (
    arith,
    capacity-store (make_room b p.seq_num) p,
    capacity-make_room b p.seq_num v,
    i.size_eq,
  );
  next_eq = ground (
    arith,
    next-store (make_room b p.seq_num) p,
    next-make_room b p.seq_num v,
    i.next_eq,
    i.size_eq,
  );
  started_eq = ground (
    arith,
    initialized-store (make_room b p.seq_num) p,
    r.initialized_eq,
    i.started_eq,
    i.size_eq,
  );
  held_eq = λ s. ground (
    arith,
    held-store (make_room b p.seq_num) p s r.valid r.lower r.upper,
    held-make_room b p.seq_num s v,
    i.next_eq,
    i.size_eq,
    i.held_eq s,
  );
}
  where
    r : HasRoom b (make_room b p.seq_num) p
    r = make_room-HasRoom b p v l h

-- Before the first packet nothing is held, so the specification may start anywhere.
anchor-Implements :
    (b : JitterBuffer) (a : Playout) (seq : ℕ)
    → Implements b a
    → Implements (anchor b seq) (if a.started then a else record a { next = seq; started = true })
unfolding anchor held
anchor-Implements b a seq i = record {
  size_eq = ground (arith, i.size_eq);
  next_eq = ground (arith, i.next_eq, i.started_eq);
  started_eq = ground (arith, i.next_eq, i.started_eq);
  held_eq = λ s. ground (arith, i.held_eq s, i.started_eq);
}

capacity-anchor : (b : JitterBuffer) (seq : ℕ) → (anchor b seq).capacity ≡ b.capacity
unfolding anchor
capacity-anchor b seq = ground arith

initialized-anchor : (b : JitterBuffer) (seq : ℕ) → (anchor b seq).initialized ≡ true
unfolding anchor
initialized-anchor b seq = ground arith

-- After a restart only the new packet is held.
restarted-Implements :
    (b : JitterBuffer) (p : RawPacket)
    → IsValid b
    → p.seq_num + b.capacity < 2 ^ 64
    → Implements
        (placed (restart b p.seq_num) p)
        (record { size = b.capacity; next = p.seq_num; started = true; packet = Spec.only p })
restarted-Implements b p v h = record {
  size_eq = ground (arith, put_done.size_eq, v.capacity_pos);
  next_eq = ground (arith, put_done.next_eq, v.capacity_pos);
  started_eq = ground (arith, put_done.started_eq, v.capacity_pos);
  held_eq = λ s. ground (arith, put_done.held_eq s, v.capacity_pos);
}
  where
    nothing : Playout
    nothing = record { size = b.capacity; next = p.seq_num; started = true; packet = λ s. none }

    cleared : Implements (restart b p.seq_num) nothing
    cleared =
        unfold restart reset held in
        record {
          size_eq = refl;
          next_eq = refl;
          started_eq = refl;
          held_eq = λ s. ap (at_seq s) (slot-empty_slots b.slots (s % b.capacity));
        }

    put_done : Implements (placed (restart b p.seq_num) p) (Spec.put nothing p)
    put_done =
        unfold restart reset in
        placed-Implements (restart b p.seq_num) nothing p (restart-IsValid b p.seq_num v h) cleared
          refl (le_refl p.seq_num) h

insert_anchored-Refines :
    (b : JitterBuffer) (a : Playout) (p : RawPacket)
    → IsValid b
    → Implements b a
    → b.initialized ≡ true
    → p.seq_num + b.capacity < 2 ^ 64
    → Refines (insert_anchored b p).0 (Spec.insert_started a p).0
      × ((insert_anchored b p).1 ≡ (Spec.insert_started a p).1)
unfolding insert_anchored
insert_anchored-Refines b a p v i on h = elim (Bool-cases (ltb p.seq_num b.next_play_seq)) [
  | inr ahead ↦
      let ahead' : ltb p.seq_num a.next ≡ false = ground (arith, i.next_eq) in
      let l : b.next_play_seq ≤ p.seq_num = ground arith in
      rw (ahead, ahead', insert_anchored)
        (
          record {
            valid = unfold placed in placed-IsValid b p v on l h;
            implements = unfold placed in placed-Implements b a p v i on l h;
          },
          refl,
        )
  | inl behind ↦
      let behind' : ltb p.seq_num a.next ≡ true = ground (arith, i.next_eq) in
      elim (Bool-cases (ltb b.capacity (b.next_play_seq - p.seq_num))) [
        | inr near ↦
            let near' : ltb a.size (a.next - p.seq_num) ≡ false =
              ground (arith, i.next_eq, i.size_eq) in
            rw (behind, behind', near, near', insert_anchored)
              (record { valid = v; implements = i }, refl)
        | inl far ↦
            let far' : ltb a.size (a.next - p.seq_num) ≡ true =
              ground (arith, i.next_eq, i.size_eq) in
            rw (behind, behind', far, far', insert_anchored)
              (
                record {
                  valid =
                      unfold placed restart reset in
                      placed-IsValid (restart b p.seq_num) p (restart-IsValid b p.seq_num v h) refl
                        (le_refl p.seq_num) h;
                  implements =
                      unfold placed in
                      subst
                        (λ n. Implements (placed (restart b p.seq_num) p) (record a {
                          size = n;
                          next = p.seq_num;
                          started = true;
                          packet = Spec.only p;
                        }))
                        i.size_eq (restarted-Implements b p v h);
                },
                refl,
              )
      ]
]

-- `insert` on a valid buffer, for a packet whose sequence number is more than one ring below
-- 2 ^ 64, keeps the buffer valid and gives the result and the packets of the specification.
pub insert-Refines :
    (b : JitterBuffer) (a : Playout) (p : RawPacket)
    → Refines b a
    → p.seq_num + b.capacity < 2 ^ 64
    → Refines (insert b p).0 (Spec.insert a p).0 × ((insert b p).1 ≡ (Spec.insert a p).1)
unfolding insert Spec.insert
insert-Refines b a p r h =
    insert_anchored-Refines (anchor b p.seq_num)
      (if a.started then a else record a { next = p.seq_num; started = true }) p
      (anchor-IsValid b p.seq_num r.valid h) (anchor-Implements b a p.seq_num r.implements)
      (initialized-anchor b p.seq_num) (omega (arith, capacity-anchor b p.seq_num))

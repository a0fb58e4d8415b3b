-- ===== src/Stream/PcmAssembly/Completion.antt =====
-- The four chunks of a frame at `PcmAssembly::push`, in any order.
use Prim.Native.Nat.{bit_and, bit_or}
use gemacast.Prelude.{
  ℕ, zero, suc, ◌-◌, ◌%◌, ◌^◌, ◌<◌, ◌≡◌, ◌≢◌, refl, sym, ap, ◌∙◌, subst, List, Option, none, some,
  Bool, true, false, not, ◌&&◌, ◌||◌, max, arith, leb, ◌==◌, if◌then◌else◌, length, get_or, set,
  replicate, length-set, length-replicate, Bool-cases, inl, inr, eq→==,
}
use gemacast.Prelude.Bits.{each_byte, each_byte→}
use gemacast.Audio.{RawPacket}
use gemacast.Wire.PcmDatagram.{PcmChunk}
use gemacast.Stream.PcmAssembly.{
  PcmAssembly, FrameSlot, empty_slot, new, expires, expire_slots, expire, default_slots,
  start_generation, slot_at, fresh_slot, claim, with_chunk, fill, fill_slot, see, push_current,
  push, is_some_eq, is_older, assembly_deadline, is_late,
}
use gemacast.Stream.PcmAssembly.Chunks.{get_or-set}
use gemacast.Stream.PcmAssembly.Provenance.{expire_slots-get, length-expire_slots}

-- A frame that is being put together, since `t` and with the chunks of the mask.
record IsFilling (s g t m : ℕ) (a : PcmAssembly) : Type 0 where
  ring : length a.slots ≡ 16
  current : a.generation ≡ some g
  newest : a.newest_sequence ≡ s
  mine : (slot_at a s).sequence ≡ some s
  since : (slot_at a s).first_arrival ≡ some t
  has : (slot_at a s).mask ≡ m
  waits : (p : RawPacket) × ((slot_at a s).packet ≡ some p)

expire-IsFilling :
    (s g t m now : ℕ) (a : PcmAssembly)
    → IsFilling s g t m a
    → now - t < assembly_deadline
    → IsFilling s g t m (expire a now)
unfolding expire
expire-IsFilling s g t m now a f early =
    let in_time : expires now (slot_at a s) ≡ false =
      unfold expires in ground (arith, ap (is_late now) f.since) in
    let same : get_or (expire_slots now a.slots).0 (s % 16) empty_slot ≡ slot_at a s =
      expire_slots-get now a.slots (s % 16)
      ∙ ap (λ (b : Bool). if b then record (slot_at a s) { packet = none } else slot_at a s)
          in_time in
    record {
      ring = length-expire_slots now a.slots ∙ f.ring;
      current = f.current;
      newest = f.newest;
      mine = ap (λ x. x.sequence) same ∙ f.mine;
      since = ap (λ x. x.first_arrival) same ∙ f.since;
      has = ap (λ x. x.mask) same ∙ f.has;
      waits = (f.waits.0, ap (λ x. x.packet) same ∙ f.waits.1);
    }

-- A frame after one more chunk: released if the chunk was the last one, and else still filling.
abbrev Filled : ℕ → ℕ → ℕ → ℕ → Bool → PcmAssembly × Option RawPacket → Type 0
Filled s g t m true r = (p : RawPacket) × (r.1 ≡ some p)
Filled s g t m false r = IsFilling s g t m r.0 × (r.1 ≡ none)

set_self :
    (xs : List FrameSlot) (i : ℕ) (v : FrameSlot)
    → i < length xs
    → get_or (set xs i v) i empty_slot ≡ v
set_self xs i v h =
    get_or-set xs i i v empty_slot h
    ∙ ap (λ (b : Bool). if b then v else get_or xs i empty_slot) (eq→== i i refl)

module _ (g t m : ℕ) (a : PcmAssembly) (c : PcmChunk) (now : ℕ)
    (f : IsFilling c.sequence g t m a) where
  more_chunks :
      (v : FrameSlot) (k : ℕ) (p : RawPacket)
      → v.sequence ≡ some c.sequence
      → v.first_arrival ≡ some t
      → v.mask ≡ k
      → v.packet ≡ some p
      → IsFilling c.sequence g t k (record a { slots = set a.slots (c.sequence % 16) v })
  more_chunks v k p es et ek ep =
      let self = set_self a.slots (c.sequence % 16) v (omega (arith, f.ring)) in
      record {
        ring = length-set a.slots (c.sequence % 16) v ∙ f.ring;
        current = f.current;
        newest = f.newest;
        mine = ap (λ x. x.sequence) self ∙ es;
        since = ap (λ x. x.first_arrival) self ∙ et;
        has = ap (λ x. x.mask) self ∙ ek;
        waits = (p, ap (λ x. x.packet) self ∙ ep);
      }

  fill-Filled :
      (p : RawPacket)
      → (bit_and (slot_at a c.sequence).mask (2 ^ c.index) == 0) ≡ true
      → let k = bit_or (slot_at a c.sequence).mask (2 ^ c.index) in
        Filled c.sequence g t k (k == 15) (fill a (slot_at a c.sequence) c now (some p))
  unfolding fill
  fill-Filled p clear =
      let k = bit_or (slot_at a c.sequence).mask (2 ^ c.index) in
      elim (Bool-cases (k == 15)) [
        | inl full ↦ rw (clear, full) (_, refl)
        | inr more ↦
            rw (clear, more)
              (
                more_chunks
                    (record (slot_at a c.sequence) { mask = k; packet = some (with_chunk p c) }) k
                    (with_chunk p c) f.mine f.since refl refl,
                refl,
              )
      ]

  fill_slot-Filled :
      (bit_and m (2 ^ c.index) == 0) ≡ true
      → Filled c.sequence g t
          (bit_or m (2 ^ c.index))
          (bit_or m (2 ^ c.index) == 15)
          (fill_slot a c now)
  unfolding fill_slot
  fill_slot-Filled clear =
      let at_mask = fill-Filled f.waits.0 (ap (λ k. bit_and k (2 ^ c.index) == 0) f.has ∙ clear) in
      subst
        (λ o.
          Filled c.sequence g t (bit_or m (2 ^ c.index)) (bit_or m (2 ^ c.index) == 15)
            (fill a (slot_at a c.sequence) c now o))
        (sym f.waits.1)
        (subst
          (λ k.
            Filled c.sequence g t (bit_or k (2 ^ c.index)) (bit_or k (2 ^ c.index) == 15)
              (fill a (slot_at a c.sequence) c now (some f.waits.0)))
          f.has at_mask)

  claim-same : claim a c.sequence now ≡ a
  unfolding claim
  claim-same =
      let q : is_some_eq c.sequence (slot_at a c.sequence).sequence ≡ true =
        ap (is_some_eq c.sequence) f.mine ∙ eq→== c.sequence c.sequence refl in
      rw q refl

  push_current-fill : push_current a c now ≡ fill_slot a c now
  unfolding push_current
  push_current-fill =
      let near : leb 16 (a.newest_sequence - c.sequence) ≡ false = ground (arith, f.newest) in
      rw near (ap (λ b. fill_slot b c now) claim-same)

  see-same : see a c.sequence ≡ a
  see-same =
      let e : max a.newest_sequence c.sequence ≡ a.newest_sequence = omega (arith, f.newest) in
      λ i. record a { newest_sequence = e i }

start_generation-same :
    (a : PcmAssembly) (c : PcmChunk) → a.generation ≡ some c.generation → start_generation a c ≡ a
unfolding start_generation
start_generation-same a c e =
    let q : is_some_eq c.generation a.generation ≡ true =
      ap (is_some_eq c.generation) e ∙ eq→== c.generation c.generation refl in
    rw q refl

-- One more chunk of a frame that is being filled, in time.
push-Filled :
    (t m : ℕ) (a : PcmAssembly) (c : PcmChunk) (now : ℕ)
    → IsFilling c.sequence c.generation t m a
    → now - t < assembly_deadline
    → (bit_and m (2 ^ c.index) == 0) ≡ true
    → Filled c.sequence c.generation t
        (bit_or m (2 ^ c.index))
        (bit_or m (2 ^ c.index) == 15)
        (push a c now)
unfolding push
push-Filled t m a c now f early clear =
    let b = expire a now in
    let fb = expire-IsFilling c.sequence c.generation t m now a f early in
    let current : is_older c.generation b.generation ≡ false =
      ap (is_older c.generation) fb.current ∙ ground arith in
    let begun = start_generation-same b c fb.current ∙ refl in
    let seen = ap (λ x. see x c.sequence) begun ∙ see-same c.generation t m b c now fb in
    rw current (
      subst
        (Filled c.sequence c.generation t (bit_or m (2 ^ c.index)) (bit_or m (2 ^ c.index) == 15))
        (sym (ap (λ x. push_current x c now) seen ∙ push_current-fill c.generation t m b c now fb))
        (fill_slot-Filled c.generation t m b c now fb clear))

-- A new reassembly that has seen the generation and the sequence number of a chunk.
abbrev begun : PcmChunk → PcmAssembly
begun c = record {
  generation = some c.generation;
  newest_sequence = c.sequence;
  slots = replicate 16 empty_slot;
  completed_frames = 0;
  expired_frames = 0;
}

start-begun :
    (c : PcmChunk) (now : ℕ) → see (start_generation (expire new now) c) c.sequence ≡ begun c
unfolding new expire expire_slots expires start_generation default_slots replicate
start-begun c now =
    let e : max c.sequence c.sequence ≡ c.sequence = omega arith in
    λ i. record (begun c) { newest_sequence = e i }

get_or-replicate : (n i : ℕ) → get_or (replicate n empty_slot) i empty_slot ≡ empty_slot
unfolding get_or replicate
get_or-replicate zero i = refl
get_or-replicate (suc n) zero = refl
get_or-replicate (suc n) (suc i) = get_or-replicate n i

claim-begun :
    (c : PcmChunk) (now : ℕ)
    → IsFilling c.sequence c.generation now 0 (claim (begun c) c.sequence now)
unfolding claim fresh_slot
claim-begun c now =
    let i = c.sequence % 16 in
    let free : is_some_eq c.sequence (slot_at (begun c) c.sequence).sequence ≡ false =
      ap (λ x. is_some_eq c.sequence x.sequence) (get_or-replicate 16 i) in
    let self =
      set_self (replicate 16 empty_slot) i (fresh_slot c.sequence now)
        (omega (arith, length-replicate 16 empty_slot)) in
    rw free (record {
      ring =
          length-set (replicate 16 empty_slot) i (fresh_slot c.sequence now)
          ∙ length-replicate 16 empty_slot;
      current = refl;
      newest = refl;
      mine = ap (λ x. x.sequence) self;
      since = ap (λ x. x.first_arrival) self;
      has = ap (λ x. x.mask) self;
      waits = (_, ap (λ x. x.packet) self);
    })

push-new-fill :
    (c : PcmChunk) (now : ℕ) → push new c now ≡ fill_slot (claim (begun c) c.sequence now) c now
unfolding push push_current new expire
push-new-fill c now =
    let near : leb 16 (c.sequence - c.sequence) ≡ false = ground arith in
    ap (λ a. push_current a c now) (start-begun c now) ∙ rw near refl

-- The first chunk of a frame on a new reassembly.
push-new :
    (c : PcmChunk) (now : ℕ)
    → (bit_or 0 (2 ^ c.index) == 15) ≡ false
    → (bit_and 0 (2 ^ c.index) == 0) ≡ true
    → IsFilling c.sequence c.generation now (bit_or 0 (2 ^ c.index)) (push new c now).0
      × ((push new c now).1 ≡ none)
push-new c now more clear =
    subst (Filled c.sequence c.generation now (bit_or 0 (2 ^ c.index)) false)
      (sym (push-new-fill c now))
      (subst
        (λ b.
          Filled c.sequence c.generation now (bit_or 0 (2 ^ c.index)) b
            (fill_slot (claim (begun c) c.sequence now) c now))
        more
        (fill_slot-Filled c.generation now 0 (claim (begun c) c.sequence now) c now
          (claim-begun c now) clear))

-- The masks that four different chunk numbers run through.
abbrev bits : ℕ → ℕ → ℕ
bits m i = bit_or m (2 ^ i)

differ : ℕ → ℕ → ℕ → ℕ → Bool
differ i j k l =
    not (i == j)
    && (not (i == k) && (not (i == l) && (not (j == k) && (not (j == l) && not (k == l)))))

masks : ℕ → ℕ → ℕ → ℕ → Bool
masks i j k l =
    not (bits 0 i == 15)
    && ((bit_and 0 (2 ^ i) == 0)
        && (not (bits (bits 0 i) j == 15)
            && ((bit_and (bits 0 i) (2 ^ j) == 0)
                && (not (bits (bits (bits 0 i) j) k == 15)
                    && ((bit_and (bits (bits 0 i) j) (2 ^ k) == 0)
                        && ((bits (bits (bits (bits 0 i) j) k) l == 15)
                            && (bit_and (bits (bits (bits 0 i) j) k) (2 ^ l) == 0)))))))

order_test : ℕ → ℕ → ℕ → ℕ → Bool
unfolding differ masks
order_test i j k l = not (differ i j k l) || masks i j k l

order_run :
    each_byte (λ i. each_byte (λ j. each_byte (λ k. each_byte (order_test i j k) 3) 3) 3) 3 ≡ true
unfolding each_byte order_test
order_run = refl

order_masks :
    (i j k l : ℕ) → i < 4 → j < 4 → k < 4 → l < 4 → differ i j k l ≡ true → masks i j k l ≡ true
order_masks i j k l hi hj hk hl d =
    let t : order_test i j k l ≡ true =
      each_byte→ (order_test i j k) 3 l hl
        (each_byte→ _ 3 k hk (each_byte→ _ 3 j hj (each_byte→ _ 3 i hi order_run))) in
    unfold order_test in ground (arith, t, d)

differ_lem :
    (i j k l : ℕ)
    → (i ≢ j) × (i ≢ k) × (i ≢ l) × (j ≢ k) × (j ≢ l) × (k ≢ l)
    → differ i j k l ≡ true
unfolding differ
differ_lem i j k l d = ground (arith, d)

-- The masks of four different chunk numbers, each test by itself.
record IsOrder (i j k l : ℕ) : Type 0 where
  clear_i : (bit_and 0 (2 ^ i) == 0) ≡ true
  more_i : (bits 0 i == 15) ≡ false
  clear_j : (bit_and (bits 0 i) (2 ^ j) == 0) ≡ true
  more_j : (bits (bits 0 i) j == 15) ≡ false
  clear_k : (bit_and (bits (bits 0 i) j) (2 ^ k) == 0) ≡ true
  more_k : (bits (bits (bits 0 i) j) k == 15) ≡ false
  clear_l : (bit_and (bits (bits (bits 0 i) j) k) (2 ^ l) == 0) ≡ true
  full_l : (bits (bits (bits (bits 0 i) j) k) l == 15) ≡ true

masks-IsOrder : (i j k l : ℕ) → masks i j k l ≡ true → IsOrder i j k l
unfolding masks
masks-IsOrder i j k l e = record {
  clear_i = ground (arith, e);
  more_i = ground (arith, e);
  clear_j = ground (arith, e);
  more_j = ground (arith, e);
  clear_k = ground (arith, e);
  more_k = ground (arith, e);
  clear_l = ground (arith, e);
  full_l = ground (arith, e);
}

abbrev pub chunk_of : ℕ → ℕ → ℕ → List ℕ → PcmChunk
chunk_of s g i payload = record { sequence = s; generation = g; index = i; payload = payload }

-- The four chunks of a frame, in any order: a new reassembly that gets them in less than 100 ms from
-- the first to each of the others gives nothing for the first three and a packet for the fourth.
pub push-completes :
    (s g i j k l : ℕ) (pi pj pk pl : List ℕ) (ti tj tk tl : ℕ)
    → (i < 4) × (j < 4) × (k < 4) × (l < 4)
    → (i ≢ j) × (i ≢ k) × (i ≢ l) × (j ≢ k) × (j ≢ l) × (k ≢ l)
    → (tj - ti < 100_000) × (tk - ti < 100_000) × (tl - ti < 100_000)
    → let a1 = push new (chunk_of s g i pi) ti in
      let a2 = push a1.0 (chunk_of s g j pj) tj in
      let a3 = push a2.0 (chunk_of s g k pk) tk in
      let a4 = push a3.0 (chunk_of s g l pl) tl in
      (a1.1 ≡ none) × (a2.1 ≡ none) × (a3.1 ≡ none) × ((p : RawPacket) × (a4.1 ≡ some p))
push-completes s g i j k l pi pj pk pl ti tj tk tl h d t =
    let (hi, hj, hk, hl) = h in
    let o = masks-IsOrder i j k l (order_masks i j k l hi hj hk hl (differ_lem i j k l d)) in
    let c1 = chunk_of s g i pi in
    let c2 = chunk_of s g j pj in
    let c3 = chunk_of s g k pk in
    let c4 = chunk_of s g l pl in
    let m1 = bits 0 i in
    let m2 = bits m1 j in
    let m3 = bits m2 k in
    let r1 = push-new c1 ti o.more_i o.clear_i in
    let a1 = (push new c1 ti).0 in
    let r2 =
      subst (λ b. Filled s g ti m2 b (push a1 c2 tj)) o.more_j
        (push-Filled ti m1 a1 c2 tj r1.0 t.0 o.clear_j) in
    let a2 = (push a1 c2 tj).0 in
    let r3 =
      subst (λ b. Filled s g ti m3 b (push a2 c3 tk)) o.more_k
        (push-Filled ti m2 a2 c3 tk r2.0 t.1 o.clear_k) in
    let a3 = (push a2 c3 tk).0 in
    let r4 =
      subst (λ b. Filled s g ti (bits m3 l) b (push a3 c4 tl)) o.full_l
        (push-Filled ti m3 a3 c4 tl r3.0 t.2 o.clear_l) in
    (r1.1, r2.1, r3.1, r4)

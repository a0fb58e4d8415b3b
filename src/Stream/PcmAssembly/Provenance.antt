-- ===== src/Stream/PcmAssembly/Provenance.antt =====
-- Where the bytes of a frame come from that `PcmAssembly::push` releases.
use Prim.Native.Nat.{bit_and, bit_or}
use gemacast.Prelude.{
  ℕ, zero, suc, ◌-◌, ◌*◌, ◌%◌, ◌^◌, ◌<◌, ◌≡◌, refl, sym, ap, ◌∙◌, subst, List, [], ◌∷◌, Option,
  none, some, Bool, true, false, not, ◌&&◌, arith, leb, ◌==◌, if◌then◌else◌, length, slice, get_or,
  set, length-set, length-replicate, length-copy_from_slice, Bool-cases, inl, inr, ==→eq, eq→==,
}
use gemacast.Audio.{RawPacket, zeroed, zero_payload}
use gemacast.Wire.PcmDatagram.{PcmChunk}
use gemacast.Wire.PcmDatagram.RoundTrip.{IsChunk}
use gemacast.Stream.PcmAssembly.{
  PcmAssembly, FrameSlot, empty_slot, new, expires, expire_slots, expire, default_slots,
  start_generation, slot_at, fresh_slot, claim, with_chunk, fill, fill_slot, see, push_current,
  push, is_some_eq, is_older,
}
use gemacast.Stream.PcmAssembly.Chunks.{
  slice-copy_from_slice, bit_and-bit_or, bit_or-lt_16, full_mask, no_mask, get_or-set,
}

pub expire_slots-get :
    (now : ℕ) (xs : List FrameSlot) (j : ℕ)
    → let old = get_or xs j empty_slot in
      get_or (expire_slots now xs).0 j empty_slot
      ≡ (if expires now old then record old { packet = none } else old)
unfolding expire_slots get_or expires
expire_slots-get now [] j = refl
expire_slots-get now (x ∷ xs) zero = ground arith
expire_slots-get now (x ∷ xs) (suc j) = ground (arith, expire_slots-get now xs j)

pub length-expire_slots :
    (now : ℕ) (xs : List FrameSlot) → length (expire_slots now xs).0 ≡ length xs
unfolding expire_slots
length-expire_slots now [] = refl
length-expire_slots now (x ∷ xs) = ground (arith, length-expire_slots now xs)

default_slots-get :
    (xs : List FrameSlot) (j : ℕ) → get_or (default_slots xs) j empty_slot ≡ empty_slot
unfolding default_slots get_or
default_slots-get [] j = refl
default_slots-get (x ∷ xs) zero = refl
default_slots-get (x ∷ xs) (suc j) = default_slots-get xs j

length-default_slots : (xs : List FrameSlot) → length (default_slots xs) ≡ length xs
unfolding default_slots
length-default_slots [] = refl
length-default_slots (x ∷ xs) = ap suc (length-default_slots xs)

some_value : {A : Type 0} (a b : A) → some a ≡ some b → a ≡ b
some_value a b e = cc

is_some_eq-some : (g : ℕ) (o : Option ℕ) → is_some_eq g o ≡ true → o ≡ some g
is_some_eq-some g none e = cc
is_some_eq-some g (some h) e = ap some (==→eq h g e)

pub data Event : Type 0 where
  pushes : (chunk : PcmChunk) (now : ℕ) → Event
  expires_at : (now : ℕ) → Event

unfoldable pub after : PcmAssembly → List Event → PcmAssembly
after a [] = a
after a (pushes c now ∷ es) = after (push a c now).0 es
after a (expires_at now ∷ es) = after (expire a now) es

module _ (Sent : PcmChunk → Type 0) where
  -- Each chunk that the mask counts as there was sent for this frame, and its bytes are at its place.
  record IsPart (g : ℕ) (sequence : Option ℕ) (mask : ℕ) (p : RawPacket) : Type 0 where
    seq : sequence ≡ some p.seq_num
    room : length p.payload_data ≡ 8000
    small : mask < 16
    raw : p.is_uncompressed ≡ true
    whole : p.payload_len ≡ 3840
    parts :
        (i : ℕ)
        → i < 4
        → (bit_and mask (2 ^ i) == 0) ≡ false
        → Sent (record {
          sequence = p.seq_num;
          generation = g;
          index = i;
          payload = slice p.payload_data (i * 960) 960;
        })

  abbrev Holds : ℕ → FrameSlot → Type 0
  Holds g slot = (p : RawPacket) → slot.packet ≡ some p → IsPart g slot.sequence slot.mask p

  record IsSound (a : PcmAssembly) : Type 0 where
    ring : length a.slots ≡ 16
    holds : (g : ℕ) → a.generation ≡ some g → (j : ℕ) → Holds g (get_or a.slots j empty_slot)

  -- A released packet: complete, raw, and each of its four chunks was sent.
  pub record IsReleased (c : PcmChunk) (now : ℕ) (p : RawPacket) : Type 0 where
    pub seq_num_eq : p.seq_num ≡ c.sequence
    pub arrival_eq : p.arrival_time ≡ now
    pub raw : p.is_uncompressed ≡ true
    pub whole : p.payload_len ≡ 3840
    pub parts :
        (i : ℕ)
        → i < 4
        → Sent (record {
          sequence = c.sequence;
          generation = c.generation;
          index = i;
          payload = slice p.payload_data (i * 960) 960;
        })

  new-IsSound : IsSound new
  unfolding new
  new-IsSound = record { ring = length-replicate 16 empty_slot; holds = λ g e j. cc e }

  expired-Holds :
      (g now : ℕ) (slot : FrameSlot)
      → Holds g slot
      → Holds g (if expires now slot then record slot { packet = none } else slot)
  expired-Holds g now slot h = elim (Bool-cases (expires now slot)) [
    | inl e ↦ rw e (λ p f. cc)
    | inr n ↦ rw n h
  ]

  expire-IsSound : (a : PcmAssembly) (now : ℕ) → IsSound a → IsSound (expire a now)
  unfolding expire
  expire-IsSound a now s = record {
    ring = length-expire_slots now a.slots ∙ s.ring;
    holds = λ g e j.
        subst (Holds g) (sym (expire_slots-get now a.slots j))
          (expired-Holds g now (get_or a.slots j empty_slot) (s.holds g e j));
  }

  start_generation-IsSound :
      (a : PcmAssembly) (c : PcmChunk)
      → IsSound a
      → IsSound (start_generation a c) × ((start_generation a c).generation ≡ some c.generation)
  unfolding start_generation
  start_generation-IsSound a c s = elim (Bool-cases (is_some_eq c.generation a.generation)) [
    | inl e ↦ rw e (s, is_some_eq-some c.generation a.generation e)
    | inr n ↦ rw n (
      record {
        ring = length-default_slots a.slots ∙ s.ring;
        holds = λ g e j. subst (Holds g) (sym (default_slots-get a.slots j)) (λ p f. cc);
      },
      refl,
    )
  ]

  fresh_slot-Holds : (g sequence now : ℕ) → Holds g (fresh_slot sequence now)
  unfolding fresh_slot zeroed zero_payload
  fresh_slot-Holds g sequence now p f =
      subst (IsPart g (some sequence) 0) (some_value _ p f) (record {
        seq = refl;
        room = length-replicate 8000 zero;
        small = omega arith;
        raw = refl;
        whole = refl;
        parts = λ i hi set. absurd (ground (arith, no_mask i hi, set));
      })

  with_chunk-part :
      (g : ℕ) (c : PcmChunk) (mask : ℕ) (p : RawPacket)
      → IsPart g (some c.sequence) mask p
      → Sent c
      → IsChunk c
      → c.generation ≡ g
      → (i : ℕ) → i < 4
      → (not (i == c.index) && bit_and mask (2 ^ i) == 0) ≡ false
      → Sent (record {
        sequence = p.seq_num;
        generation = g;
        index = i;
        payload = slice (with_chunk p c).payload_data (i * 960) 960;
      })
  unfolding with_chunk
  with_chunk-part g c mask p h sent ok e i hi set =
      let cut =
        slice-copy_from_slice p.payload_data c.payload i c.index h.room ok.payload_length hi
          ok.index_lt in
      elim (Bool-cases (i == c.index)) [
        | inl q ↦
            let es = some_value c.sequence p.seq_num h.seq in
            let ei = sym (==→eq i c.index q) in
            let ep = sym (
              cut
              ∙ ap (λ (b : Bool). if b then c.payload else slice p.payload_data (i * 960) 960) q) in
            subst Sent
              (λ t. record { sequence = es t; generation = e t; index = ei t; payload = ep t }) sent
        | inr n ↦
            let ep = sym (
              cut
              ∙ ap (λ (b : Bool). if b then c.payload else slice p.payload_data (i * 960) 960) n) in
            subst Sent
              (λ t. record { sequence = p.seq_num; generation = g; index = i; payload = ep t })
              (h.parts i hi (ground (arith, n, set)))
      ]

  with_chunk-IsPart :
      (g : ℕ) (c : PcmChunk) (mask : ℕ) (p : RawPacket)
      → IsPart g (some c.sequence) mask p
      → Sent c
      → IsChunk c
      → c.generation ≡ g
      → IsPart g (some c.sequence) (bit_or mask (2 ^ c.index)) (with_chunk p c)
  unfolding with_chunk
  with_chunk-IsPart g c mask p h sent ok e = record {
    seq = h.seq;
    room =
        length-copy_from_slice p.payload_data (c.index * 960) c.payload
          (omega (arith, h.room, ok.index_lt, ok.payload_length))
        ∙ h.room;
    small = bit_or-lt_16 mask 0 c.index h.small (omega arith) ok.index_lt;
    raw = h.raw;
    whole = h.whole;
    parts = λ i hi set.
        with_chunk-part g c mask p h sent ok e i hi
          (sym (bit_and-bit_or mask i c.index h.small hi ok.index_lt) ∙ set);
  }

  choose-Holds :
      (g : ℕ) (b : Bool) (x y : FrameSlot) → Holds g x → Holds g y → Holds g (if b then x else y)
  choose-Holds g true x y hx hy = hx
  choose-Holds g false x y hx hy = hy

  set_slot-IsSound :
      (a b : PcmAssembly) (g i : ℕ) (v : FrameSlot)
      → IsSound a
      → a.generation ≡ some g
      → b.generation ≡ a.generation
      → b.slots ≡ set a.slots i v
      → i < 16
      → Holds g v
      → IsSound b
  set_slot-IsSound a b g i v s e same slots lt h = record {
    ring = ap length slots ∙ length-set a.slots i v ∙ s.ring;
    holds = λ g' e' j.
        subst (λ n. Holds n (get_or b.slots j empty_slot)) (some_value g g' (sym e ∙ sym same ∙ e'))
          (subst (Holds g)
            (sym (
              ap (λ xs. get_or xs j empty_slot) slots
              ∙ get_or-set a.slots i j v empty_slot (omega (arith, s.ring))))
            (choose-Holds g (i == j) v (get_or a.slots j empty_slot) h (s.holds g e j)));
  }

  -- What a claimed slot is like.
  record IsClaimed (a : PcmAssembly) (c : PcmChunk) : Type 0 where
    sound : IsSound a
    current : a.generation ≡ some c.generation
    mine : (slot_at a c.sequence).sequence ≡ some c.sequence

  fresh_slot-sequence : (sequence now : ℕ) → (fresh_slot sequence now).sequence ≡ some sequence
  unfolding fresh_slot
  fresh_slot-sequence sequence now = refl

  claim-IsClaimed :
      (a : PcmAssembly) (c : PcmChunk) (now : ℕ)
      → IsSound a
      → a.generation ≡ some c.generation
      → IsClaimed (claim a c.sequence now) c
  unfolding claim
  claim-IsClaimed a c now s e =
      elim (Bool-cases (is_some_eq c.sequence (slot_at a c.sequence).sequence)) [
        | inl q ↦ rw q (record { sound = s; current = e; mine = is_some_eq-some c.sequence _ q })
        | inr n ↦ rw n (record {
          sound =
              set_slot-IsSound a _ c.generation (c.sequence % 16) (fresh_slot c.sequence now) s e
                refl refl (omega arith) (fresh_slot-Holds c.generation c.sequence now);
          current = e;
          mine =
              ap (λ x. x.sequence)
                (get_or-set a.slots (c.sequence % 16) (c.sequence % 16) (fresh_slot c.sequence now)
                    empty_slot (omega (arith, s.ring))
                  ∙ ap
                      (λ (b : Bool).
                        if b
                        then fresh_slot c.sequence now
                        else get_or a.slots (c.sequence % 16) empty_slot)
                      (eq→== (c.sequence % 16) (c.sequence % 16) refl))
              ∙ fresh_slot-sequence c.sequence now;
        })
      ]

  -- What `push` promises, of the assembly and of the packet that it gives.
  record IsPushed (c : PcmChunk) (now : ℕ) (r : PcmAssembly × Option RawPacket) : Type 0 where
    sound : IsSound r.0
    released : (p : RawPacket) → r.1 ≡ some p → IsReleased c now p

  kept_back : (c : PcmChunk) (now : ℕ) (a : PcmAssembly) → IsSound a → IsPushed c now (a, none)
  kept_back c now a s = record { sound = s; released = λ p e. cc e }

  full-IsReleased :
      (c : PcmChunk) (now mask : ℕ) (p : RawPacket)
      → IsPart c.generation (some c.sequence) mask p
      → mask ≡ 15
      → IsReleased c now (record p { arrival_time = now })
  full-IsReleased c now mask p h full = record {
    seq_num_eq = sym (some_value c.sequence p.seq_num h.seq);
    arrival_eq = refl;
    raw = h.raw;
    whole = h.whole;
    parts = λ i hi.
        let set : (bit_and mask (2 ^ i) == 0) ≡ false =
          ap (λ m. bit_and m (2 ^ i) == 0) full ∙ full_mask 0 i 0 (omega arith) hi (omega arith) in
        subst
          (λ n. Sent (record {
            sequence = n;
            generation = c.generation;
            index = i;
            payload = slice p.payload_data (i * 960) 960;
          }))
          (sym (some_value c.sequence p.seq_num h.seq)) (h.parts i hi set);
  }

  fill-IsPushed :
      (a : PcmAssembly) (c : PcmChunk) (now : ℕ) (o : Option RawPacket)
      → IsClaimed a c
      → (slot_at a c.sequence).packet ≡ o
      → Sent c
      → IsChunk c
      → IsPushed c now (fill a (slot_at a c.sequence) c now o)
  unfolding fill
  fill-IsPushed a c now none k e sent ok = kept_back c now a k.sound
  fill-IsPushed a c now (some p) k e sent ok =
      let slot = slot_at a c.sequence in
      let bit = 2 ^ c.index in
      let mask = bit_or slot.mask bit in
      let old =
        subst (λ s. IsPart c.generation s slot.mask p) k.mine
          (k.sound.holds c.generation k.current (c.sequence % 16) p e) in
      let part = with_chunk-IsPart c.generation c slot.mask p old sent ok refl in
      elim (Bool-cases (bit_and slot.mask bit == 0)) [
        | inr seen ↦ rw seen (kept_back c now a k.sound)
        | inl unseen ↦ elim (Bool-cases (mask == 15)) [
          | inr more ↦
              rw (unseen, more)
                (record {
                  sound =
                      set_slot-IsSound a _ c.generation (c.sequence % 16)
                        (record slot { mask = mask; packet = some (with_chunk p c) }) k.sound
                        k.current refl refl (omega arith)
                        (λ q f. subst (IsPart c.generation slot.sequence mask) (some_value _ q f) (
                          subst (λ s. IsPart c.generation s mask (with_chunk p c)) (sym k.mine)
                            part));
                  released = λ q f. cc f;
                })
          | inl full ↦
              rw (unseen, full)
                (record {
                  sound =
                      set_slot-IsSound a _ c.generation (c.sequence % 16)
                        (record slot { mask = mask; packet = none }) k.sound k.current refl refl
                        (omega arith) (λ q f. cc f);
                  released = λ q f.
                      subst (IsReleased c now) (some_value _ q f)
                        (full-IsReleased c now mask (with_chunk p c) part (==→eq mask 15 full));
                })
        ]
      ]

  push_current-IsPushed :
      (a : PcmAssembly) (c : PcmChunk) (now : ℕ)
      → IsSound a
      → a.generation ≡ some c.generation
      → Sent c
      → IsChunk c
      → IsPushed c now (push_current a c now)
  unfolding push_current fill_slot
  push_current-IsPushed a c now s e sent ok =
      elim (Bool-cases (leb 16 (a.newest_sequence - c.sequence))) [
        | inl old ↦ rw old (kept_back c now a s)
        | inr new_enough ↦ rw new_enough (
            fill-IsPushed (claim a c.sequence now) c now
              (slot_at (claim a c.sequence now) c.sequence).packet (claim-IsClaimed a c now s e)
              refl sent ok)
      ]

  see-IsSound : (a : PcmAssembly) (n : ℕ) → IsSound a → IsSound (see a n)
  see-IsSound a n s = record { ring = s.ring; holds = s.holds }

  push-IsPushed :
      (a : PcmAssembly) (c : PcmChunk) (now : ℕ)
      → IsSound a
      → Sent c
      → IsChunk c
      → IsPushed c now (push a c now)
  unfolding push
  push-IsPushed a c now s sent ok =
      let b = expire a now in
      let sb = expire-IsSound a now s in
      elim (Bool-cases (is_older c.generation b.generation)) [
        | inl old ↦ rw old (kept_back c now b sb)
        | inr current ↦
            let (st, g) = start_generation-IsSound b c sb in
            rw current (
              push_current-IsPushed (see (start_generation b c) c.sequence) c now
                (see-IsSound (start_generation b c) c.sequence st) g sent ok)
      ]

  -- Every chunk of the events was sent and is as the decoder gives it.
  abbrev pub AllSent : List Event → Type 0
  AllSent [] = Unit {0}
  AllSent (pushes c now ∷ es) = Sent c × IsChunk c × AllSent es
  AllSent (expires_at now ∷ es) = AllSent es

  after-IsSound :
      (es : List Event) (a : PcmAssembly) → IsSound a → AllSent es → IsSound (after a es)
  unfolding after
  after-IsSound [] a s h = s
  after-IsSound (pushes c now ∷ es) a s h =
      after-IsSound es (push a c now).0 (push-IsPushed a c now s h.0 h.1).sound h.2
  after-IsSound (expires_at now ∷ es) a s h =
      after-IsSound es (expire a now) (expire-IsSound a now s) h

  -- Whatever is pushed, in whatever order and at whatever times, a frame that a new reassembly releases
  -- has the sequence number of the chunk that completes it, and each quarter of its 3840 bytes is the
  -- payload of a chunk that was sent with that sequence number, that chunk's generation and the
  -- quarter's number: frames never mix, and no byte is made up. `Sent` is any property that all pushed
  -- chunks have; they are chunks as the datagram decoder gives them.
  pub push-IsReleased :
      (es : List Event) (c : PcmChunk) (now : ℕ) (p : RawPacket)
      → AllSent es
      → Sent c
      → IsChunk c
      → (push (after new es) c now).1 ≡ some p
      → IsReleased c now p
  push-IsReleased es c now p h sent ok e =
      (push-IsPushed (after new es) c now (after-IsSound es new new-IsSound h) sent ok).released p e

-- ===== src/Jitter/Buffer/Invariant.antt =====
-- The well-formedness of the jitter buffer, its packets as a map, and what a skip keeps.
use gemacast.Prelude.{
  ℕ, zero, suc, ◌+◌, ◌-◌, ◌%◌, ◌^◌, ◌≤◌, ◌<◌, ◌≡◌, ◌≢◌, refl, sym, ap, ◌∙◌, subst, Option, none,
  some, true, false, arith, length, min, length-set, leb, ◌==◌, if◌then◌else◌, Bool-cases,
  Option-cases, inl, inr,
}
use gemacast.Audio.{RawPacket}
use gemacast.Jitter.Buffer.{
  JitterBuffer, Slots, slot, add_u64, clear_slot, clear_loop, clear_skipped,
}
use gemacast.Jitter.Buffer.Slots.{
  count, slot-set, slot-empty_slots, length-empty_slots, count-empty_slots, count-set,
  ring_distinct, mod-lt_pos,
}

-- Each filled slot holds the packet that belongs there, from `lo` on and before `hi`.
abbrev pub Window : ℕ → ℕ → ℕ → Slots → Type 0
Window c lo hi xs =
    (i : ℕ) (p : RawPacket)
    → slot xs i ≡ some p
    → (p.seq_num % c ≡ i) × (lo ≤ p.seq_num) × (p.seq_num < hi)

abbrev pub at_seq : ℕ → Option RawPacket → Option RawPacket
at_seq s none = none
at_seq s (some p) = if p.seq_num == s then some p else none

-- The packet with sequence number `s` that the buffer holds.
unfoldable pub held : JitterBuffer → ℕ → Option RawPacket
held b s = at_seq s (slot b.slots (s % b.capacity))

pub record IsValid (b : JitterBuffer) : Type 0 where
  pub capacity_pos : 0 < b.capacity
  pub capacity_small : b.capacity < 2 ^ 31
  pub slots_length : length b.slots ≡ b.capacity
  pub occupied_count : b.occupied ≡ count b.slots
  pub playhead : b.next_play_seq + b.capacity < 2 ^ 64
  pub window : Window b.capacity b.next_play_seq (b.next_play_seq + b.capacity) b.slots
  pub idle : b.initialized ≡ false → count b.slots ≡ 0
  pub cached : (m : ℕ) → b.cached_min_seq ≡ some m → held b m ≢ none

abbrev pub keep_from : ℕ → Option RawPacket → Option RawPacket
keep_from m none = none
keep_from m (some p) = if leb m p.seq_num then some p else none

-- `r` is `b` without the packets before `lo`.
pub record Cleared (b r : JitterBuffer) (lo : ℕ) : Type 0 where
  pub capacity_eq : r.capacity ≡ b.capacity
  pub next_eq : r.next_play_seq ≡ b.next_play_seq
  pub initialized_eq : r.initialized ≡ b.initialized
  pub slots_length : length r.slots ≡ r.capacity
  pub occupied_count : r.occupied ≡ count r.slots
  pub slots_eq : (i : ℕ) → slot r.slots i ≡ keep_from lo (slot b.slots i)

keep_from_self :
    (c lo hi : ℕ) (xs : Slots) (i : ℕ) → Window c lo hi xs → slot xs i ≡ keep_from lo (slot xs i)
keep_from_self c lo hi xs i w = elim (Option-cases (slot xs i)) [
  | inl e ↦ rw e refl
  | inr (p, e) ↦ rw e (ground (arith, w i p e))
]

keep_from-keep_from :
    (m n : ℕ) (o : Option RawPacket) → m ≤ n → keep_from n (keep_from m o) ≡ keep_from n o
keep_from-keep_from m n none h = refl
keep_from-keep_from m n (some p) h = ground arith

-- The window of what a clearing leaves.
pub Cleared-Window :
    {b r : JitterBuffer} (c lo lo' hi : ℕ)
    → Cleared b r lo'
    → Window c lo hi b.slots
    → Window c lo' hi r.slots
Cleared-Window {b} {r} c lo lo' hi k w i p e = elim (Option-cases (slot b.slots i)) [
  | inl n ↦ cc (k.slots_eq i, n, e)
  | inr (q, f) ↦ ground (arith, k.slots_eq i, w i q f)
]

-- At the slot of the lowest sequence number only that packet can be; elsewhere it cannot be.
keep_from-elsewhere :
    (c lo hi i : ℕ) (o : Option RawPacket)
    → ((p : RawPacket) → o ≡ some p → (p.seq_num % c ≡ i) × (lo ≤ p.seq_num) × (p.seq_num < hi))
    → lo % c ≢ i
    → o ≡ keep_from (suc lo) o
keep_from-elsewhere c lo hi i none w n = refl
keep_from-elsewhere c lo hi i (some p) w n =
    ground (arith, w p refl, ap (λ (t : ℕ). t % c) {x = p.seq_num} {y = lo})

keep_from-here :
    (c lo hi i : ℕ) (o : Option RawPacket)
    → ((p : RawPacket) → o ≡ some p → (p.seq_num % c ≡ i) × (lo ≤ p.seq_num) × (p.seq_num < hi))
    → 0 < c
    → hi ≤ lo + c
    → lo % c ≡ i
    → keep_from (suc lo) o ≡ none
keep_from-here c lo hi i none w cp h n = refl
keep_from-here c lo hi i (some p) w cp h n =
    let (e, l, u) = w p refl in
    let same : p.seq_num ≡ lo =
      ring_distinct c lo p.seq_num lo l (omega arith) (omega arith) (omega arith) (e ∙ sym n) in
    ground arith

-- One round of the loop clears the packet `seq`, if it is there, and no other.
clear_slot-slots :
    (b : JitterBuffer) (seq hi i : ℕ)
    → 0 < b.capacity
    → hi ≤ seq + b.capacity
    → length b.slots ≡ b.capacity
    → Window b.capacity seq hi b.slots
    → slot (clear_slot b seq).slots i ≡ keep_from (suc seq) (slot b.slots i)
unfolding clear_slot
clear_slot-slots b seq hi i cp hh hl w = elim (Bool-cases ((seq % b.capacity) == i)) [
  | inr n ↦ ground (
    arith,
    keep_from-elsewhere b.capacity seq hi i (slot b.slots i) (w i),
    slot-set b.slots (seq % b.capacity) i none,
    mod-lt_pos seq b.capacity cp,
  )
  | inl y ↦ ground (
    arith,
    keep_from-here b.capacity seq hi i (slot b.slots i) (w i) cp hh,
    slot-set b.slots (seq % b.capacity) i none,
    mod-lt_pos seq b.capacity cp,
  )
]

clear_slot-Cleared :
    (b : JitterBuffer) (seq hi : ℕ)
    → 0 < b.capacity
    → hi ≤ seq + b.capacity
    → length b.slots ≡ b.capacity
    → b.occupied ≡ count b.slots
    → Window b.capacity seq hi b.slots
    → Cleared b (clear_slot b seq) (suc seq)
unfolding clear_slot
clear_slot-Cleared b seq hi cp hh hl ho w = record {
  capacity_eq = ground arith;
  next_eq = ground arith;
  initialized_eq = ground arith;
  slots_length = ground (arith, length-set b.slots (seq % b.capacity) none);
  occupied_count =
      ground (arith, count-set b.slots (seq % b.capacity) none, mod-lt_pos seq b.capacity cp);
  slots_eq = λ i. clear_slot-slots b seq hi i cp hh hl w;
}

Cleared-trans :
    {a b c : JitterBuffer} (lo lo' : ℕ)
    → lo ≤ lo'
    → Cleared a b lo
    → Cleared b c lo'
    → Cleared a c lo'
Cleared-trans {a} {b} {c} lo lo' h j k = record {
  capacity_eq = k.capacity_eq ∙ j.capacity_eq;
  next_eq = k.next_eq ∙ j.next_eq;
  initialized_eq = k.initialized_eq ∙ j.initialized_eq;
  slots_length = k.slots_length;
  occupied_count = k.occupied_count;
  slots_eq = λ i.
      k.slots_eq i
      ∙ (ap (keep_from lo') (j.slots_eq i) ∙ keep_from-keep_from lo lo' (slot a.slots i) h);
}

next-Window :
    {b r : JitterBuffer} (seq hi : ℕ)
    → Cleared b r (suc seq)
    → Window b.capacity seq hi b.slots
    → Window r.capacity (seq + 1) hi r.slots
next-Window {b} {r} seq hi k w i p e =
    let (m, l, u) = Cleared-Window b.capacity seq (suc seq) hi k w i p e in
    (ap (λ c. p.seq_num % c) k.capacity_eq ∙ m, omega arith, u)

clear_loop-Cleared :
    (n : ℕ) (b : JitterBuffer) (seq hi lo : ℕ)
    → seq + n ≡ lo
    → 0 < b.capacity
    → hi ≤ seq + b.capacity
    → length b.slots ≡ b.capacity
    → b.occupied ≡ count b.slots
    → Window b.capacity seq hi b.slots
    → Cleared b (clear_loop n seq b) lo
unfolding clear_loop
clear_loop-Cleared zero b seq hi lo e cp hh hl ho w =
    let same : seq ≡ lo = omega arith in
    record {
      capacity_eq = refl;
      next_eq = refl;
      initialized_eq = refl;
      slots_length = hl;
      occupied_count = ho;
      slots_eq = λ i.
          keep_from_self b.capacity lo hi b.slots i
            (subst (λ t. Window b.capacity t hi b.slots) same w);
    }
clear_loop-Cleared (suc n) b seq hi lo e cp hh hl ho w =
    let k = clear_slot-Cleared b seq hi cp hh hl ho w in
    Cleared-trans (suc seq) lo (omega arith) k (
      clear_loop-Cleared n (clear_slot b seq) (seq + 1) hi lo (omega arith)
        (omega (arith, k.capacity_eq)) (omega (arith, k.capacity_eq)) k.slots_length
        k.occupied_count (next-Window seq hi k w))

-- The clearing at the start of `skip_to` drops exactly the packets before the new playhead.
pub clear_skipped-Cleared :
    (b : JitterBuffer) (new_seq : ℕ)
    → IsValid b
    → b.next_play_seq ≤ new_seq
    → Cleared b (clear_skipped b new_seq) new_seq
unfolding clear_skipped
clear_skipped-Cleared b new_seq v h =
    elim (Bool-cases (leb b.capacity (new_seq - b.next_play_seq))) [
      | inl far ↦
          rw (far, clear_skipped)
            (record {
              capacity_eq = refl;
              next_eq = refl;
              initialized_eq = refl;
              slots_length = length-empty_slots b.slots ∙ v.slots_length;
              occupied_count = sym (count-empty_slots b.slots);
              slots_eq = λ i. slot-empty_slots b.slots i ∙ sym (past_window i far);
            })
      | inr near ↦
          rw (near, clear_skipped)
            (clear_loop-Cleared (min new_seq (add_u64 b.next_play_seq b.capacity) - b.next_play_seq)
              b b.next_play_seq (b.next_play_seq + b.capacity) new_seq (ground (arith, v.playhead))
              v.capacity_pos (omega arith) v.slots_length v.occupied_count v.window)
    ]
  where
    past_window :
        (i : ℕ)
        → leb b.capacity (new_seq - b.next_play_seq) ≡ true
        → keep_from new_seq (slot b.slots i) ≡ none
    past_window i far = elim (Option-cases (slot b.slots i)) [
      | inl e ↦ rw e refl
      | inr (p, e) ↦ rw e (ground (arith, v.window i p e))
    ]

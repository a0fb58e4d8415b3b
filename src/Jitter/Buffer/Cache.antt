-- ===== src/Jitter/Buffer/Cache.antt =====
-- `lowest_available_seq` and its cache.
use gemacast.Prelude.{
  ℕ, zero, suc, ◌+◌, ◌%◌, ◌≤◌, ◌<◌, ◌≡◌, ◌≢◌, refl, ap, ◌∙◌, Option, none, some, [], ◌∷◌, true,
  false, arith, min, leb, ltb, eq→==, Bool-cases, Option-cases, inl, inr, ◌⊎◌, get_or,
}
use gemacast.Audio.{RawPacket}
use gemacast.Jitter.Buffer.{
  JitterBuffer, Slots, slot, min_seq_from, lowest_available_seq, recompute_min, insert, store,
  anchor, make_room, insert_anchored, min_cached, add_u64, fast_forward,
}
use gemacast.Jitter.Buffer.Invariant.{at_seq, held, IsValid}
use gemacast.Jitter.Buffer.Preservation.{held-store, held-skip_to, store-IsValid}
use gemacast.Jitter.Buffer.Spec.{Playout}
use gemacast.Jitter.Buffer.Refinement.{Refines}

-- The scan's result is where it started, or the number of a packet in a slot; it is not above
-- either.
min_seq_from-le : (m : ℕ) (xs : Slots) → (r : ℕ) × (min_seq_from (some m) xs ≡ some r) × (r ≤ m)
unfolding min_seq_from
min_seq_from-le m [] = (m, refl, omega arith)
min_seq_from-le m (none ∷ xs) = min_seq_from-le m xs
min_seq_from-le m (some p ∷ xs) =
    let (r, e, h) = min_seq_from-le (min m p.seq_num) xs in (r, e, omega arith)

min_seq_from-lower :
    (o : Option ℕ) (xs : Slots) (i : ℕ) (p : RawPacket)
    → slot xs i ≡ some p
    → (r : ℕ) × (min_seq_from o xs ≡ some r) × (r ≤ p.seq_num)
unfolding min_seq_from slot get_or
min_seq_from-lower o [] i p e = cc
min_seq_from-lower o (none ∷ xs) zero p e = cc
min_seq_from-lower none (none ∷ xs) (suc i) p e = min_seq_from-lower none xs i p e
min_seq_from-lower (some m) (none ∷ xs) (suc i) p e = min_seq_from-lower (some m) xs i p e
min_seq_from-lower none (some q ∷ xs) zero p e =
    let (r, f, h) = min_seq_from-le q.seq_num xs in (r, f, ground arith)
min_seq_from-lower (some m) (some q ∷ xs) zero p e =
    let (r, f, h) = min_seq_from-le (min m q.seq_num) xs in (r, f, ground arith)
min_seq_from-lower none (some q ∷ xs) (suc i) p e = min_seq_from-lower (some q.seq_num) xs i p e
min_seq_from-lower (some m) (some q ∷ xs) (suc i) p e =
    min_seq_from-lower (some (min m q.seq_num)) xs i p e

abbrev IsIn : ℕ → Slots → Type 0
IsIn r xs = (i : ℕ) × (p : RawPacket) × (slot xs i ≡ some p) × (p.seq_num ≡ r)

IsIn-cons : {r : ℕ} (xs : Slots) (x : Option RawPacket) → IsIn r xs → IsIn r (x ∷ xs)
unfolding slot get_or
IsIn-cons xs x (i, p, e, h) = (suc i, p, e, h)

IsIn-head : (r : ℕ) (xs : Slots) (p : RawPacket) → p.seq_num ≡ r → IsIn r (some p ∷ xs)
unfolding slot get_or
IsIn-head r xs p e = (zero, p, refl, e)

min_cases : (m n r : ℕ) → min m n ≡ r → (m ≡ r) ⊎ (n ≡ r)
min_cases m n r e = elim (Bool-cases (leb m n)) [
  | inl h ↦ inl (ground arith)
  | inr h ↦ inr (ground arith)
]

after_head :
    {r : ℕ} {o : Option ℕ} (xs : Slots) (p : RawPacket)
    → (o ≡ some r) ⊎ (p.seq_num ≡ r)
    → (o ≡ some r) ⊎ IsIn r (some p ∷ xs)
after_head xs p (inl e) = inl e
after_head {r} xs p (inr e) = inr (IsIn-head r xs p e)

min_seq_from-IsIn :
    (o : Option ℕ) (xs : Slots) (r : ℕ) → min_seq_from o xs ≡ some r → (o ≡ some r) ⊎ IsIn r xs
unfolding min_seq_from
min_seq_from-IsIn o [] r e = inl (ground arith)
min_seq_from-IsIn none (none ∷ xs) r e = elim (min_seq_from-IsIn none xs r e) [
  | inl f ↦ inl f
  | inr f ↦ inr (IsIn-cons xs none f)
]
min_seq_from-IsIn (some m) (none ∷ xs) r e = elim (min_seq_from-IsIn (some m) xs r e) [
  | inl f ↦ inl f
  | inr f ↦ inr (IsIn-cons xs none f)
]
min_seq_from-IsIn none (some p ∷ xs) r e = elim (min_seq_from-IsIn (some p.seq_num) xs r e) [
  | inl f ↦ inr (IsIn-head r xs p (cc))
  | inr f ↦ inr (IsIn-cons xs (some p) f)
]
min_seq_from-IsIn (some m) (some p ∷ xs) r e =
    elim (min_seq_from-IsIn (some (min m p.seq_num)) xs r e) [
      | inl f ↦ elim (min_cases m p.seq_num r (cc)) [
        | inl g ↦ inl (ap some g)
        | inr g ↦ inr (IsIn-head r xs p g)
      ]
      | inr f ↦ inr (IsIn-cons xs (some p) f)
    ]

-- A packet in a slot of a valid buffer is held under its number, and the other way round.
held_of_slot :
    (b : JitterBuffer) (i : ℕ) (p : RawPacket)
    → IsValid b
    → slot b.slots i ≡ some p
    → held b p.seq_num ≡ some p
unfolding held
held_of_slot b i p v e =
    let (m, l, u) = v.window i p e in rw (m, e, at_seq, eq→== p.seq_num p.seq_num refl) refl

slot_of_held :
    (b : JitterBuffer) (s : ℕ)
    → held b s ≢ none
    → (p : RawPacket) × (slot b.slots (s % b.capacity) ≡ some p) × (p.seq_num ≡ s)
unfolding held
slot_of_held b s h = elim (Option-cases (slot b.slots (s % b.capacity))) [
  | inl e ↦ absurd (h (ap (at_seq s) e))
  | inr (p, e) ↦ (p, e, ground (arith, e, h))
]

reported :
    (b : JitterBuffer) (o : Option ℕ) (m : ℕ)
    → (recompute_min b o).1 ≡ some m
    → (o ≡ some m) ⊎ (min_seq_from none b.slots ≡ some m)
reported b none m e = inr e
reported b (some k) m e = inl e

scanned-held :
    (b : JitterBuffer) (m : ℕ) → IsValid b → min_seq_from none b.slots ≡ some m → held b m ≢ none
scanned-held b m v e = elim (min_seq_from-IsIn none b.slots m e) [
  | inl g ↦ cc
  | inr (i, p, g, h) ↦ λ n. cc (n, h, held_of_slot b i p v g)
]

-- On a valid buffer the number that `lowest_available_seq` reports, cached or not, is that of a packet
-- in the buffer.
pub lowest_available_seq-held :
    (b : JitterBuffer) (m : ℕ) → IsValid b → (lowest_available_seq b).1 ≡ some m → held b m ≢ none
unfolding lowest_available_seq
lowest_available_seq-held b m v e = elim (reported b b.cached_min_seq m e) [
  | inl f ↦ v.cached m f
  | inr f ↦ scanned-held b m v f
]

-- With an empty cache `lowest_available_seq` reports a number, at most that of every packet in the
-- buffer, whenever there is one.
pub lowest_available_seq-lowest :
    (b : JitterBuffer) (s : ℕ)
    → b.cached_min_seq ≡ none
    → held b s ≢ none
    → (m : ℕ) × ((lowest_available_seq b).1 ≡ some m) × (m ≤ s)
unfolding lowest_available_seq
lowest_available_seq-lowest b s f h =
    let (p, e, g) = slot_of_held b s h in
    let (m, k, l) = min_seq_from-lower none b.slots (s % b.capacity) p e in
    (m, rw (f, lowest_available_seq) k, omega arith)

recompute_min-Refines :
    (b : JitterBuffer) (a : Playout) (o : Option ℕ) → Refines b a → Refines (recompute_min b o).0 a
unfolding held
recompute_min-Refines b a (some m) r = r
recompute_min-Refines b a none r = record {
  valid = record {
    capacity_pos = r.valid.capacity_pos;
    capacity_small = r.valid.capacity_small;
    slots_length = r.valid.slots_length;
    occupied_count = r.valid.occupied_count;
    playhead = r.valid.playhead;
    window = r.valid.window;
    idle = r.valid.idle;
    cached = λ m e. scanned-held b m r.valid e;
  };
  implements = record {
    size_eq = r.implements.size_eq;
    next_eq = r.implements.next_eq;
    started_eq = r.implements.started_eq;
    held_eq = r.implements.held_eq;
  };
}

-- Reporting changes the cache only.
pub lowest_available_seq-Refines :
    (b : JitterBuffer) (a : Playout) → Refines b a → Refines (lowest_available_seq b).0 a
unfolding lowest_available_seq
lowest_available_seq-Refines b a r = recompute_min-Refines b a b.cached_min_seq r

-- An insertion into the window, step by step.
insert_in_window :
    (b : JitterBuffer) (p : RawPacket)
    → IsValid b
    → b.initialized ≡ true
    → b.next_play_seq ≤ p.seq_num
    → p.seq_num < b.next_play_seq + b.capacity
    → (insert b p).0 ≡ store b p
unfolding insert anchor insert_anchored make_room
insert_in_window b p v on l u =
    let inside : ltb p.seq_num b.next_play_seq ≡ false = ground arith in
    let near : leb (add_u64 b.next_play_seq b.capacity) p.seq_num ≡ false =
      ground (arith, v.playhead) in
    simp (on, inside, near)

-- With a stale cache an insertion caches the number of the new packet, although a lower one is in
-- the buffer: on a started valid buffer that holds a packet `s`, and whose cache is empty, the
-- insertion of a packet above `s` within the window makes `lowest_available_seq` report the new
-- packet. To fast-forward to it, which the manager does after a gap, drops the packet `s`, which the
-- buffer held to that point.
pub lowest_available_seq_stale :
    (b : JitterBuffer) (p : RawPacket) (s : ℕ)
    → IsValid b
    → b.initialized ≡ true
    → b.cached_min_seq ≡ none
    → held b s ≢ none
    → s < p.seq_num
    → p.seq_num < b.next_play_seq + b.capacity
    → let r = lowest_available_seq (insert b p).0 in
      (r.1 ≡ some p.seq_num)
      × (held r.0 s ≡ held b s)
      × (held (fast_forward r.0 p.seq_num) s ≡ none)
lowest_available_seq_stale b p s v on stale h lt u =
    let (q, e, g) = slot_of_held b s h in
    let (m, l, w) = v.window (s % b.capacity) q e in
    let ahead : b.next_play_seq ≤ p.seq_num = omega arith in
    let stored = store-IsValid b p v on ahead u in
    let cached : lowest_available_seq (store b p) ≡ (store b p, some p.seq_num) =
      unfold lowest_available_seq store min_cached in simp stale in
    rw (insert_in_window b p v on ahead u, cached)
      (
        refl,
        held-store b p s v ahead u ∙ ground arith,
        unfold fast_forward in
            held-skip_to (store b p) p.seq_num s stored (unfold store in ahead) ∙ ground arith,
      )

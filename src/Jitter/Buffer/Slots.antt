-- ===== src/Jitter/Buffer/Slots.antt =====
-- Lemmas on the ring of slots: reads after writes, the count of filled slots, and the slots of sequence
-- numbers within one ring length.
use gemacast.Prelude.{
  ℕ, zero, suc, ◌+◌, ◌%◌, ◌≤◌, ◌<◌, ◌≡◌, refl, ap, [], ◌∷◌, Option, none, some, arith, length,
  get_or, set, replicate, ◌==◌, if◌then◌else◌,
}
use gemacast.Audio.{RawPacket}
use gemacast.Jitter.Buffer.{Slots, slot, empty_slots}

-- Filled slots.
abbrev pub count : Slots → ℕ
count [] = 0
count (none ∷ xs) = count xs
count (some p ∷ xs) = suc (count xs)

pub slot-set :
    (xs : Slots) (i j : ℕ) (v : Option RawPacket)
    → i < length xs
    → slot (set xs i v) j ≡ (if i == j then v else slot xs j)
unfolding slot set get_or
slot-set [] i j v h = elim h [ ]
slot-set (x ∷ xs) zero zero v h = refl
slot-set (x ∷ xs) zero (suc j) v h = ground arith
slot-set (x ∷ xs) (suc i) zero v h = ground arith
slot-set (x ∷ xs) (suc i) (suc j) v h = ground (arith, slot-set xs i j v (omega arith))

pub slot-empty_slots : (xs : Slots) (i : ℕ) → slot (empty_slots xs) i ≡ none
unfolding slot empty_slots get_or
slot-empty_slots [] i = refl
slot-empty_slots (x ∷ xs) zero = refl
slot-empty_slots (x ∷ xs) (suc i) = slot-empty_slots xs i

pub slot-replicate : (n i : ℕ) → slot (replicate n none) i ≡ none
unfolding slot replicate get_or
slot-replicate zero i = refl
slot-replicate (suc n) zero = refl
slot-replicate (suc n) (suc i) = slot-replicate n i

pub length-empty_slots : (xs : Slots) → length (empty_slots xs) ≡ length xs
unfolding empty_slots
length-empty_slots [] = refl
length-empty_slots (x ∷ xs) = ap suc (length-empty_slots xs)

pub count-empty_slots : (xs : Slots) → count (empty_slots xs) ≡ 0
unfolding empty_slots
count-empty_slots [] = refl
count-empty_slots (x ∷ xs) = count-empty_slots xs

pub count-replicate : (n : ℕ) → count (replicate n none) ≡ 0
unfolding replicate
count-replicate zero = refl
count-replicate (suc n) = count-replicate n

pub count-le : (xs : Slots) → count xs ≤ length xs
count-le [] = omega arith
count-le (none ∷ xs) = omega (arith, count-le xs)
count-le (some p ∷ xs) = omega (arith, count-le xs)

-- The count after a write, by what the slot held.
abbrev weight : Option RawPacket → ℕ
weight none = 0
weight (some p) = 1

pub count-set :
    (xs : Slots) (i : ℕ) (v : Option RawPacket)
    → i < length xs
    → count (set xs i v) + weight (slot xs i) ≡ count xs + weight v
unfolding slot set get_or
count-set [] i v h = elim h [ ]
count-set (none ∷ xs) zero none h = omega arith
count-set (none ∷ xs) zero (some q) h = omega arith
count-set (some p ∷ xs) zero none h = omega arith
count-set (some p ∷ xs) zero (some q) h = omega arith
count-set (none ∷ xs) (suc i) v h = omega (arith, count-set xs i v (omega arith))
count-set (some p ∷ xs) (suc i) v h = omega (arith, count-set xs i v (omega arith))

pub slot-none_of_count : (xs : Slots) (i : ℕ) → count xs ≡ 0 → slot xs i ≡ none
unfolding slot get_or
slot-none_of_count [] i h = refl
slot-none_of_count (none ∷ xs) zero h = refl
slot-none_of_count (none ∷ xs) (suc i) h = slot-none_of_count xs i h
slot-none_of_count (some p ∷ xs) i h = absurd (omega arith)

-- Sequence numbers less than one ring apart have slots of their own.
pub ring_distinct :
    (c lo a b : ℕ) → lo ≤ a → a < lo + c → lo ≤ b → b < lo + c → a % c ≡ b % c → a ≡ b
ring_distinct c lo a b h1 h2 h3 h4 e = grind arith

pub mod-lt_pos : (a c : ℕ) → 0 < c → a % c < c
mod-lt_pos a c h = omega arith

pub count-zero : (xs : Slots) → ((i : ℕ) → slot xs i ≡ none) → count xs ≡ 0
unfolding slot get_or
count-zero [] h = refl
count-zero (none ∷ xs) h = count-zero xs (λ i. h (suc i))
count-zero (some p ∷ xs) h = cc (h zero)

-- ===== src/Stream/PcmAssembly/Chunks.antt =====
-- The four chunks of a payload, and the mask that says which of them have arrived.
use Prim.Native.Nat.{bit_and, bit_or}
use mathlib.Core.List.{append_assoc}
use gemacast.Prelude.{
  ℕ, zero, suc, ◌+◌, ◌-◌, ◌*◌, ◌^◌, ◌≤◌, ◌<◌, ◌≡◌, refl, sym, ap, ◌∙◌, List, [], ◌∷◌, ◌++◌, Bool,
  true, false, not, ◌&&◌, arith, ltb, ◌==◌, if◌then◌else◌, length, take, drop, slice,
  copy_from_slice, length-take, get_or, set, length-append, slice_at, drop-drop, ==→eq, ltb→lt,
  Bool-cases, inl, inr,
}
use gemacast.Prelude.Bits.{each_byte, each_byte→}

module _ {ℓ} {A : Type ℓ} where
  slice_before :
      (dst rest : List A) (n k o : ℕ)
      → n + k ≤ o
      → o ≤ length dst
      → take k (drop n (take o dst ++ rest)) ≡ take k (drop n dst)
  unfolding take drop
  slice_before dst rest zero zero o h l = refl
  slice_before [] rest zero (suc k) o h l = absurd (omega arith)
  slice_before (x ∷ dst) rest zero (suc k) zero h l = absurd (omega arith)
  slice_before (x ∷ dst) rest zero (suc k) (suc o) h l =
      ap (λ t. x ∷ t) (slice_before dst rest zero k o (omega arith) (omega arith))
  slice_before [] rest (suc n) k zero h l = absurd (omega arith)
  slice_before [] rest (suc n) k (suc o) h l = absurd (omega arith)
  slice_before (x ∷ dst) rest (suc n) k zero h l = absurd (omega arith)
  slice_before (x ∷ dst) rest (suc n) k (suc o) h l =
      slice_before dst rest n k o (omega arith) (omega arith)

  drop_past : (front rest : List A) (m : ℕ) → drop (length front + m) (front ++ rest) ≡ drop m rest
  unfolding drop
  drop_past [] rest m = let e : zero + m ≡ m = omega arith in ap (λ n. drop n rest) e
  drop_past (x ∷ front) rest m =
      let e : suc (length front) + m ≡ suc (length front + m) = omega arith in
      ap (λ n. drop n (x ∷ (front ++ rest))) e ∙ drop_past front rest m

  slice_after :
      (dst front : List A) (e m k : ℕ)
      → length front ≡ e
      → take k (drop (e + m) (front ++ drop e dst)) ≡ take k (drop (e + m) dst)
  slice_after dst front e m k h =
      ap (λ n. take k (drop (n + m) (front ++ drop e dst))) (sym h)
      ∙ ap (take k) (drop_past front (drop e dst) m ∙ drop-drop e m dst)

module _ (dst src : List ℕ) (i k : ℕ) (hd : length dst ≡ 8000) (hs : length src ≡ 960) (hi : i < 4)
    (hk : k < 4) where
  front_length : length (take (k * 960) dst) ≡ k * 960
  front_length = length-take (k * 960) dst (omega arith)

  slice_same : i ≡ k → slice (copy_from_slice dst (k * 960) src) (i * 960) 960 ≡ src
  unfolding copy_from_slice
  slice_same e =
      slice_at (take (k * 960) dst) src (drop (k * 960 + length src) dst) (i * 960) 960 refl
        (omega (arith, front_length)) hs

  slice_left :
      i < k → slice (copy_from_slice dst (k * 960) src) (i * 960) 960 ≡ slice dst (i * 960) 960
  unfolding copy_from_slice slice
  slice_left l =
      slice_before dst (src ++ drop (k * 960 + length src) dst) (i * 960) 960 (k * 960)
        (omega arith) (omega arith)

  slice_right :
      k < i → slice (copy_from_slice dst (k * 960) src) (i * 960) 960 ≡ slice dst (i * 960) 960
  unfolding copy_from_slice slice
  slice_right l =
      let e = k * 960 + length src in
      let there : i * 960 ≡ e + (i * 960 - e) = omega arith in
      ap (λ t. take 960 (drop (i * 960) t))
        (sym (append_assoc (take (k * 960) dst) src (drop e dst)))
      ∙ ap (λ n. take 960 (drop n ((take (k * 960) dst ++ src) ++ drop e dst))) there
      ∙ slice_after dst (take (k * 960) dst ++ src) e (i * 960 - e) 960
          (omega (arith, length-append (take (k * 960) dst) src, front_length))
      ∙ ap (λ n. take 960 (drop n dst)) (sym there)

  -- A chunk that is copied in is the slice at its place, and the slices elsewhere stay.
  pub slice-copy_from_slice :
      slice (copy_from_slice dst (k * 960) src) (i * 960) 960
      ≡ (if i == k then src else slice dst (i * 960) 960)
  slice-copy_from_slice = elim (Bool-cases (i == k)) [
    | inl e ↦ rw e (slice_same (==→eq i k e))
    | inr n ↦ rw n (elim (Bool-cases (ltb i k)) [
      | inl l ↦ slice_left (ltb→lt i k l)
      | inr r ↦ slice_right (ground arith)
    ])
  ]

each_pair : (ℕ → ℕ → ℕ → Bool) → Bool
each_pair test = each_byte (λ m. each_byte (λ i. each_byte (test m i) 3) 3) 15

same : Bool → Bool → Bool
same true b = b
same false b = not b

mask_test : ℕ → ℕ → ℕ → Bool
unfolding same
mask_test m i k =
    same (bit_and (bit_or m (2 ^ k)) (2 ^ i) == 0) (not (i == k) && bit_and m (2 ^ i) == 0)
    && (ltb (bit_or m (2 ^ k)) 16 && not (bit_and 15 (2 ^ i) == 0))

mask_run : each_pair mask_test ≡ true
unfolding each_pair mask_test each_byte
mask_run = refl

module _ (m i k : ℕ) (hm : m < 16) (hi : i < 4) (hk : k < 4) where
  mask_test_lem : mask_test m i k ≡ true
  unfolding each_pair
  mask_test_lem =
      each_byte→ (mask_test m i) 3 k hk (each_byte→ _ 3 i hi (each_byte→ _ 15 m hm mask_run))

  -- Which bits are set after one more.
  pub bit_and-bit_or :
      (bit_and (bit_or m (2 ^ k)) (2 ^ i) == 0) ≡ (not (i == k) && bit_and m (2 ^ i) == 0)
  bit_and-bit_or = unfold mask_test in ground (arith, mask_test_lem)

  pub bit_or-lt_16 : bit_or m (2 ^ k) < 16
  bit_or-lt_16 = unfold mask_test in ground (arith, mask_test_lem)

  pub full_mask : (bit_and 15 (2 ^ i) == 0) ≡ false
  full_mask = unfold mask_test in ground (arith, mask_test_lem)

no_mask_run : each_byte (λ i. bit_and 0 (2 ^ i) == 0) 3 ≡ true
unfolding each_byte
no_mask_run = refl

pub no_mask : (i : ℕ) → i < 4 → (bit_and 0 (2 ^ i) == 0) ≡ true
no_mask i h = each_byte→ (λ i. bit_and 0 (2 ^ i) == 0) 3 i h no_mask_run

module _ {ℓ} {A : Type ℓ} where
  pub get_or-set :
      (xs : List A) (i j : ℕ) (v d : A)
      → i < length xs
      → get_or (set xs i v) j d ≡ (if i == j then v else get_or xs j d)
  unfolding get_or set
  get_or-set [] i j v d h = absurd (omega arith)
  get_or-set (x ∷ xs) zero zero v d h = refl
  get_or-set (x ∷ xs) zero (suc j) v d h = ground arith
  get_or-set (x ∷ xs) (suc i) zero v d h = ground arith
  get_or-set (x ∷ xs) (suc i) (suc j) v d h = ground (arith, get_or-set xs i j v d (omega arith))

-- ===== src/Prelude/Slices.antt =====
-- Rust's slice expressions on lists, for ranges that lie inside the list.
use Prim.Native.Nat.{ℕ, zero, suc, ◌+◌, ◌≤◌}
use mathlib.Core.Path.{◌≡◌, refl, ap, sym, ◌∙◌}
use mathlib.Core.List.{List, [], ◌∷◌, ◌++◌}
use native.Mathlib.Omega.{arith}
use gemacast.Prelude.Lists.{
  length, take, drop, get_or, length-take, length-drop, length-append, take-append, drop-append,
}

module _ {ℓ} {A : Type ℓ} where
  -- `xs[start..start + len]`
  unfoldable pub slice : List A → ℕ → ℕ → List A
  slice xs start len = take len (drop start xs)

  -- `dst[offset..offset + src.len()].copy_from_slice(src)`
  unfoldable pub copy_from_slice : List A → ℕ → List A → List A
  copy_from_slice dst offset src = take offset dst ++ (src ++ drop (offset + length src) dst)

module _ {ℓ} {A : Type ℓ} where
  pub length-slice :
      (xs : List A) (start len : ℕ) → start + len ≤ length xs → length (slice xs start len) ≡ len
  unfolding slice
  length-slice xs start len h =
      length-take len (drop start xs) (omega (arith, length-drop start xs))

  pub length-copy_from_slice :
      (dst : List A) (offset : ℕ) (src : List A)
      → offset + length src ≤ length dst
      → length (copy_from_slice dst offset src) ≡ length dst
  unfolding copy_from_slice
  length-copy_from_slice dst offset src h = omega (
    arith,
    length-append (take offset dst) (src ++ drop (offset + length src) dst),
    length-append src (drop (offset + length src) dst),
    length-take offset dst (omega arith),
    length-drop (offset + length src) dst,
  )

  get_or-append_length :
      (pre post : List A) (y d : A) {n : ℕ} → length pre ≡ n → get_or (pre ++ y ∷ post) n d ≡ y
  unfolding get_or
  get_or-append_length [] post y d {n = zero} h = refl
  get_or-append_length [] post y d {n = suc n} h = absurd (omega arith)
  get_or-append_length (x ∷ pre) post y d {n = zero} h = absurd (omega arith)
  get_or-append_length (x ∷ pre) post y d {n = suc n} h =
      get_or-append_length pre post y d (omega arith)

  -- Reading a list that is known as a concatenation.
  pub get_or_at :
      {l : List A} (pre post : List A) (y d : A) (n : ℕ)
      → l ≡ pre ++ y ∷ post
      → length pre ≡ n
      → get_or l n d ≡ y
  get_or_at pre post y d n e h = rw e (get_or-append_length pre post y d h)

  pub drop_at :
      {l : List A} (pre post : List A) (n : ℕ) → l ≡ pre ++ post → length pre ≡ n → drop n l ≡ post
  drop_at pre post n e h = rw e (drop-append pre post h)

  pub take_at :
      {l : List A} (pre post : List A) (n : ℕ) → l ≡ pre ++ post → length pre ≡ n → take n l ≡ pre
  take_at pre post n e h = rw e (take-append pre post h)

  pub slice_at :
      {l : List A} (pre mid post : List A) (n k : ℕ)
      → l ≡ pre ++ (mid ++ post)
      → length pre ≡ n
      → length mid ≡ k
      → slice l n k ≡ mid
  unfolding slice
  slice_at pre mid post n k e hn hk = take_at mid post k (drop_at pre (mid ++ post) n e hn) hk

  drop-nil : (n : ℕ) → drop {A = A} n [] ≡ []
  unfolding drop
  drop-nil zero = refl
  drop-nil (suc n) = refl

  take-nil : (n : ℕ) → take {A = A} n [] ≡ []
  unfolding take
  take-nil zero = refl
  take-nil (suc n) = refl

  pub drop-drop : (m n : ℕ) (xs : List A) → drop n (drop m xs) ≡ drop (m + n) xs
  unfolding drop
  drop-drop zero n xs = let e : n ≡ zero + n = omega arith in ap (λ k. drop k xs) e
  drop-drop (suc m) n [] = let e : suc m + n ≡ suc (m + n) = omega arith in rw e (drop-nil n)
  drop-drop (suc m) n (x ∷ xs) =
      let e : suc m + n ≡ suc (m + n) = omega arith in rw e (drop-drop m n xs)

  take-add : (m n : ℕ) (xs : List A) → take (m + n) xs ≡ take m xs ++ take n (drop m xs)
  unfolding take drop
  take-add zero n xs = let e : zero + n ≡ n = omega arith in ap (λ k. take k xs) e
  take-add (suc m) n [] = let e : suc m + n ≡ suc (m + n) = omega arith in rw e (sym (take-nil n))
  take-add (suc m) n (x ∷ xs) =
      let e : suc m + n ≡ suc (m + n) = omega arith in rw e (ap (λ t. x ∷ t) (take-add m n xs))

  -- Two slices that meet are one slice.
  pub slice-append_slice :
      (xs : List A) (start len len' mid : ℕ)
      → start + len ≡ mid
      → slice xs start len ++ slice xs mid len' ≡ slice xs start (len + len')
  unfolding slice
  slice-append_slice xs start len len' mid e = sym (
      take-add len len' (drop start xs)
      ∙ ap (λ t. take len (drop start xs) ++ take len' t)
          (drop-drop start len xs ∙ ap (λ k. drop k xs) e))

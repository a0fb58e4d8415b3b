-- ===== src/Prelude/Bits.antt =====
-- Bytes compared by `^` and `|`. What holds of all pairs of bytes is found by running through them.
use Prim.Native.Nat.{ℕ, zero, suc, ◌<◌, bit_or, bit_xor}
use mathlib.Core.Path.{◌≡◌, refl, ap}
use mathlib.Core.Bool.{Bool, true, false, ◌&&◌}
use native.Mathlib.Omega.{arith}
use gemacast.Prelude.Tests.{ltb, ◌==◌}

-- Whether a test holds of a number and each number below some bound.
unfoldable pub each_byte : (ℕ → Bool) → ℕ → Bool
each_byte test zero = test zero
each_byte test (suc top) = each_byte test top && test (suc top)

pub each_byte→ :
    (test : ℕ → Bool) (top b : ℕ) → b < suc top → each_byte test top ≡ true → test b ≡ true
unfolding each_byte
each_byte→ test zero zero bound run = run
each_byte→ test zero (suc b) bound run = absurd (omega arith)
each_byte→ test (suc top) b bound run =
    ground (arith, each_byte→ test top b, ap test {x = b} {y = suc top})

same_truth : Bool → Bool → Bool
same_truth true b = b
same_truth false true = false
same_truth false false = true

xor_pair : ℕ → ℕ → Bool
unfolding same_truth
xor_pair x y = same_truth (bit_xor x y == 0) (x == y) && ltb (bit_xor x y) 256

or_pair : ℕ → ℕ → Bool
unfolding same_truth
or_pair x y = same_truth (bit_or x y == 0) ((x == 0) && (y == 0)) && ltb (bit_or x y) 256

xor_pairs_run : each_byte (λ x. each_byte (xor_pair x) 255) 255 ≡ true
unfolding each_byte xor_pair
xor_pairs_run = refl

or_pairs_run : each_byte (λ x. each_byte (or_pair x) 255) 255 ≡ true
unfolding each_byte or_pair
or_pairs_run = refl

module _ (x y : ℕ) (hx : x < 256) (hy : y < 256) where
  xor_pair_lem : xor_pair x y ≡ true
  xor_pair_lem = each_byte→ (xor_pair x) 255 y hy (each_byte→ _ 255 x hx xor_pairs_run)

  or_pair_lem : or_pair x y ≡ true
  or_pair_lem = each_byte→ (or_pair x) 255 y hy (each_byte→ _ 255 x hx or_pairs_run)

  pub bit_xor-zero : (bit_xor x y == 0) ≡ (x == y)
  bit_xor-zero = unfold xor_pair in ground (arith, xor_pair_lem)

  pub bit_xor-lt : bit_xor x y < 256
  bit_xor-lt = unfold xor_pair in ground (arith, xor_pair_lem)

  pub bit_or-zero : (bit_or x y == 0) ≡ ((x == 0) && (y == 0))
  bit_or-zero = unfold or_pair in ground (arith, or_pair_lem)

  pub bit_or-lt : bit_or x y < 256
  bit_or-lt = unfold or_pair in ground (arith, or_pair_lem)

-- ===== src/Prelude/Bytes.antt =====
-- Unsigned integers as bytes: `to_be_bytes` and `from_be_bytes` of Rust's integers.
use Prim.Native.Nat.{ℕ, zero, suc, ◌+◌, ◌*◌, ◌/◌, ◌%◌, ◌^◌, ◌<◌}
use mathlib.Core.Path.{◌≡◌, refl, ap, ◌∙◌}
use mathlib.Core.List.{List, [], ◌∷◌, reverse, reverse-reverse}
use native.Mathlib.Omega.{arith}
use native.Mathlib.Nat.{pow-suc}
use gemacast.Prelude.Lists.{length, length-reverse}

unfoldable pub le_bytes : ℕ → ℕ → List ℕ
le_bytes zero n = []
le_bytes (suc k) n = n % 256 ∷ le_bytes k (n / 256)

unfoldable pub from_le_bytes : List ℕ → ℕ
from_le_bytes [] = 0
from_le_bytes (b ∷ bs) = b + 256 * from_le_bytes bs

-- `k` bytes, the most significant first.
unfoldable pub to_be_bytes : ℕ → ℕ → List ℕ
unfolding le_bytes
to_be_bytes k n = reverse (le_bytes k n)

unfoldable pub from_be_bytes : List ℕ → ℕ
unfolding from_le_bytes
from_be_bytes bs = from_le_bytes (reverse bs)

abbrev pub IsBytes : List ℕ → Type 0
IsBytes [] = Unit {0}
IsBytes (b ∷ bs) = (b < 256) × IsBytes bs

length-le_bytes : (k n : ℕ) → length (le_bytes k n) ≡ k
unfolding le_bytes
length-le_bytes zero n = refl
length-le_bytes (suc k) n = ap suc (length-le_bytes k (n / 256))

pub length-to_be_bytes : (k n : ℕ) → length (to_be_bytes k n) ≡ k
unfolding to_be_bytes
length-to_be_bytes k n = length-reverse (le_bytes k n) ∙ length-le_bytes k n

from_le_bytes-le_bytes : (k n : ℕ) → n < 256 ^ k → from_le_bytes (le_bytes k n) ≡ n
unfolding le_bytes from_le_bytes
from_le_bytes-le_bytes zero n h = omega arith
from_le_bytes-le_bytes (suc k) n h =
    omega (arith, from_le_bytes-le_bytes k (n / 256) (omega (arith, pow-suc 256 k)))

pub from_be_bytes-to_be_bytes : (k n : ℕ) → n < 256 ^ k → from_be_bytes (to_be_bytes k n) ≡ n
unfolding from_be_bytes to_be_bytes
from_be_bytes-to_be_bytes k n h = rw reverse-reverse (from_le_bytes-le_bytes k n h)

le_bytes-from_le_bytes : (bs : List ℕ) → IsBytes bs → le_bytes (length bs) (from_le_bytes bs) ≡ bs
unfolding le_bytes from_le_bytes
le_bytes-from_le_bytes [] h = refl
le_bytes-from_le_bytes (b ∷ bs) h =
    λ i. digit i ∷ (ap (le_bytes (length bs)) rest ∙ le_bytes-from_le_bytes bs h.1) i
  where
    digit : (b + 256 * from_le_bytes bs) % 256 ≡ b
    digit = omega (arith, h.0)

    rest : (b + 256 * from_le_bytes bs) / 256 ≡ from_le_bytes bs
    rest = omega (arith, h.0)

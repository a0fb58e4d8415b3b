-- ===== src/Control/Auth/Tokens.antt =====
-- `constant_time_eq` of gemacast-core/src/control/auth.rs.
use Prim.Native.Nat.{bit_or, bit_xor}
use gemacast.Prelude.{
  ℕ, ◌<◌, ◌≡◌, ap, [], ◌∷◌, true, ◌&&◌, arith, ◌==◌, length, Bool-cases, inl, inr, ==→eq,
}
use gemacast.Prelude.Bytes.{IsBytes}
use gemacast.Prelude.Bits.{bit_xor-zero, bit_xor-lt, bit_or-zero, bit_or-lt}
use gemacast.Prelude.Assoc.{Text, text_eq, text_eq_iff}
use gemacast.Control.Auth.{difference, constant_time_eq}

difference-zero :
    (d : ℕ) (s t : Text)
    → d < 256
    → IsBytes s
    → IsBytes t
    → length s ≡ length t
    → (difference d s t == 0) ≡ ((d == 0) && text_eq s t)
unfolding difference text_eq
difference-zero d [] [] hd hs ht e = ground arith
difference-zero d [] (y ∷ ys) hd hs ht e = absurd (omega arith)
difference-zero d (x ∷ xs) [] hd hs ht e = absurd (omega arith)
difference-zero d (x ∷ xs) (y ∷ ys) hd hs ht e =
    let lt = bit_xor-lt x y hs.0 ht.0 in
    ground (
      arith,
      difference-zero (bit_or d (bit_xor x y)) xs ys (bit_or-lt d (bit_xor x y) hd lt) hs.1 ht.1
          (omega arith),
      bit_or-zero d (bit_xor x y) hd lt,
      bit_xor-zero x y hs.0 ht.0,
    )

text_eq-length : (s t : Text) → text_eq s t ≡ true → length s ≡ length t
text_eq-length s t h = ap length ((text_eq_iff s t).0 h)

-- On bytes `constant_time_eq` is equality of texts.
pub constant_time_eq-text_eq :
    (s t : Text) → IsBytes s → IsBytes t → constant_time_eq s t ≡ text_eq s t
unfolding constant_time_eq
constant_time_eq-text_eq s t hs ht = elim (Bool-cases (length s == length t)) [
  | inl e ↦ ground (arith, difference-zero 0 s t (omega arith) hs ht (==→eq _ _ e))
  | inr n ↦ ground (arith, text_eq-length s t)
]

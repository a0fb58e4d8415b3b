-- ===== src/Prelude/Addr.antt =====
-- `std::net::SocketAddr`: an IP address, given by its bytes, and a port.
use Prim.Native.Nat.{ℕ}
use mathlib.Core.Path.{◌≡◌, subst}
use mathlib.Core.Logic.{◌↔◌}
use mathlib.Core.Bool.{Bool, true, ◌&&◌}
use native.Mathlib.Omega.{arith}
use gemacast.Prelude.Tests.{◌==◌}
use gemacast.Prelude.Assoc.{Text, text_eq, text_eq_iff, text_eq_refl, Eq}

pub record SocketAddr : Type 0 where
  pub ip : Text
  pub port : ℕ

unfoldable pub addr_eq : SocketAddr → SocketAddr → Bool
addr_eq a b = text_eq a.ip b.ip && a.port == b.port

pub addr_eq_iff : (a b : SocketAddr) → (addr_eq a b ≡ true) ↔ (a ≡ b)
unfolding addr_eq
addr_eq_iff a b = (
  λ h.
      let i : a.ip ≡ b.ip = ground (arith, text_eq_iff a.ip b.ip) in
      let p : a.port ≡ b.port = ground arith in λ t. record { ip = i t; port = p t },
  λ e. subst (λ c. addr_eq a c ≡ true) e (ground (arith, text_eq_refl a.ip)),
)

instance abbrev pub addr_Eq : Eq SocketAddr
addr_Eq = record { beq = addr_eq; beq_iff = addr_eq_iff }

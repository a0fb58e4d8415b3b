-- ===== src/Stream/PacketPacer.antt =====
-- gemacast-core/src/stream/streamer/packet_pacer.rs: the media clock of a sender. Times are numbers
-- of nanoseconds.
mod Examples
use gemacast.Prelude.{ℕ, ◌+◌, ◌*◌, ◌/◌, ◌≤◌, ◌≡◌, refl, List, [], ◌∷◌, arith, max, length}

pub record PacketPacer : Type 0 where
  pub deadline : ℕ

pub new : ℕ → PacketPacer
new now = record { deadline = now }

pub sent : PacketPacer → ℕ → ℕ → PacketPacer
sent p now period = record { deadline = max (p.deadline + period) (now + period / 2) }

-- Packets sent at the given times.
unfoldable pub sent_at : PacketPacer → ℕ → List ℕ → PacketPacer
sent_at p period [] = p
sent_at p period (t ∷ ts) = sent_at (sent p t period) period ts

-- Every packet is sent at most half a period after its deadline.
abbrev pub OnTime : PacketPacer → ℕ → List ℕ → Type 0
OnTime p period [] = Unit {0}
OnTime p period (t ∷ ts) = (t ≤ p.deadline + period / 2) × OnTime (sent p t period) period ts

-- No packet is sent before its deadline.
abbrev pub NotEarly : PacketPacer → ℕ → List ℕ → Type 0
NotEarly p period [] = Unit {0}
NotEarly p period (t ∷ ts) = (p.deadline ≤ t) × NotEarly (sent p t period) period ts

-- While every packet goes out at most half a period late, the deadline moves on by exactly one period
-- for each packet, so that rounding of the timer does not add up.
pub no_drift :
    (p : PacketPacer) (period : ℕ) (ts : List ℕ)
    → OnTime p period ts
    → (sent_at p period ts).deadline ≡ p.deadline + length ts * period
unfolding sent_at sent
no_drift p period [] h = omega arith
no_drift p period (t ∷ ts) h = omega (arith, no_drift (sent p t period) period ts h.1, h.0)

-- After a stall, senders that wait for their deadlines do not go faster than twice the nominal rate:
-- after a packet at `t`, `n` more packets take at least `n + 1` half periods from `t` to the deadline.
pub catch_up_lem :
    (p : PacketPacer) (period t : ℕ) (ts : List ℕ)
    → NotEarly p period (t ∷ ts)
    → t + (length ts + 1) * (period / 2) ≤ (sent_at p period (t ∷ ts)).deadline
unfolding sent_at sent
catch_up_lem p period t [] h = omega arith
catch_up_lem p period t (u ∷ us) h = omega (arith, catch_up_lem (sent p t period) period u us h.1)

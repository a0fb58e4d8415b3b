-- ===== src/Jitter/Buffer/Spec.antt =====
-- The specification of the jitter buffer: a playhead, and packets by sequence number in a window of one
-- ring length from the playhead on. Nothing of the ring, the count or the cache is in it.
use gemacast.Prelude.{
  ℕ, ◌+◌, ◌-◌, ◌/◌, ◌≡◌, Option, none, some, Bool, true, leb, ltb, ◌==◌, if◌then◌else◌,
}
use gemacast.Audio.{RawPacket}
use gemacast.Jitter.Buffer.{JitterBuffer, InsertResult}
use gemacast.Jitter.Buffer.Invariant.{held}

pub record Playout : Type 0 where
  pub size : ℕ
  pub next : ℕ
  pub started : Bool
  pub packet : ℕ → Option RawPacket

abbrev pub only : RawPacket → ℕ → Option RawPacket
only p s = if p.seq_num == s then some p else none

-- A packet past the window moves the playhead to half a window before it.
abbrev pub put : Playout → RawPacket → Playout
put a p =
    if leb (a.next + a.size) p.seq_num
    then record a {
      next = p.seq_num - a.size / 2;
      packet = λ s.
          if p.seq_num == s
          then some p
          else if leb (p.seq_num - a.size / 2) s
          then a.packet s
          else none;
    }
    else record a { packet = λ s. if p.seq_num == s then some p else a.packet s }

abbrev pub insert_started : Playout → RawPacket → Playout × InsertResult
insert_started a p =
    if ltb p.seq_num a.next
    then (if ltb a.size (a.next - p.seq_num)
        then (
          record a { next = p.seq_num; started = true; packet = only p },
          InsertResult.stream_restarted,
        )
        else (a, InsertResult.stale))
    else (put a p, InsertResult.accepted)

-- The first packet sets the playhead.
unfoldable pub insert : Playout → RawPacket → Playout × InsertResult
insert a p =
    insert_started (if a.started then a else record a { next = p.seq_num; started = true }) p

-- The next packet if it is there; the playhead moves on either way.
unfoldable pub pop : Playout → Playout × Option RawPacket
pop a =
    if a.started
    then (
      record a { next = a.next + 1; packet = λ s. if s == a.next then none else a.packet s },
      a.packet a.next,
    )
    else (a, none)

-- Give up the next packet.
unfoldable pub advance : Playout → Playout
advance a = record a { next = a.next + 1; packet = λ s. if s == a.next then none else a.packet s }

unfoldable pub skip : Playout → ℕ → Playout
skip a n = record a { next = n; packet = λ s. if leb n s then a.packet s else none }

pub record Implements (b : JitterBuffer) (a : Playout) : Type 0 where
  pub size_eq : b.capacity ≡ a.size
  pub next_eq : b.next_play_seq ≡ a.next
  pub started_eq : b.initialized ≡ a.started
  pub held_eq : (s : ℕ) → held b s ≡ a.packet s

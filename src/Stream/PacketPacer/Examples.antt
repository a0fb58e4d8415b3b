-- ===== src/Stream/PacketPacer/Examples.antt =====
-- The pacer at concrete times.
use gemacast.Prelude.{ℕ, ◌+◌, ◌*◌, ◌≡◌, [], ◌∷◌, arith, length}
use gemacast.Stream.PacketPacer.{PacketPacer, sent, sent_at, no_drift}

abbrev pacer : PacketPacer
pacer = record { deadline = 1000 }

no_drift_example :
    (sent_at pacer 10 (1004 ∷ 1012 ∷ [])).deadline ≡ 1000 + length {A = ℕ} (1004 ∷ 1012 ∷ []) * 10
unfolding sent
no_drift_example = no_drift pacer 10 (1004 ∷ 1012 ∷ []) (omega arith, (omega arith, tt))

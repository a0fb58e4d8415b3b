-- ===== src/Transport/Framer/Examples.antt =====
-- Frames on a byte stream.
use gemacast.Prelude.{ℕ, ◌≡◌, List, [], ◌∷◌, ◌++◌, arith, length}
use gemacast.Transport.Framer.{new, framed, receives, receives-framed}

abbrev packets : List (List ℕ)
packets = (1 ∷ 2 ∷ []) ∷ [] ∷ (3 ∷ []) ∷ []

receives-framed_example :
    receives 100 (length packets) ((framed new packets).batch ++ (0 ∷ [])) ≡ (packets, 0 ∷ [])
receives-framed_example =
    receives-framed 100 packets (0 ∷ []) (omega arith, (omega arith, (omega arith, tt)))
      (omega arith)

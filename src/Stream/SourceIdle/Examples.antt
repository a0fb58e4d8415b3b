-- ===== src/Stream/SourceIdle/Examples.antt =====
-- The idle detector at concrete times.
use gemacast.Prelude.{ℕ, ◌≡◌, refl, List, [], ◌∷◌, Bool, true, false}
use gemacast.Stream.SourceIdle.{new, is_suspended, edges, Alternates, edges-Alternates, observe}

-- A grace period of 5 s, in milliseconds.
abbrev observations : List (Bool × ℕ)
observations = (true, 0) ∷ (true, 5000) ∷ (true, 6000) ∷ (false, 7000) ∷ (true, 8000) ∷ []

idle_edges : edges (new 5000) observations ≡ true ∷ false ∷ []
unfolding edges new observe
idle_edges = refl

edges-Alternates_example : Alternates (is_suspended (new 5000)) (edges (new 5000) observations)
edges-Alternates_example = edges-Alternates (new 5000) observations
